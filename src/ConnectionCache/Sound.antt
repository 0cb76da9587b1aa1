-- ===== src/ConnectionCache/Sound.antt =====
-- The state in which the cache keeps its map and its list between calls.
use msg_courier.Prelude.{
  ℕ, ◌<◌, ◌≡◌, ◌≢◌, ap, ◌∙◌, true, pos, some, List, [], ◌∷◌, arith, All, inl, inr,
}
use msg_courier.Memory.{done}
use msg_courier.Buffer.Valid
use msg_courier.MsgPool.Cells.{Absent, Distinct}
use msg_courier.ConnectionCache.{
  node, finish, crs_waiting, Conn, Node, Table, Cache, in_bounds, new_cache, unlink,
}
use msg_courier.ConnectionCache.Nodes.{ids, socks, without, Held, without-Absent}

-- The record of an active node waits, under its own socket, and knows its node.
pub record IsLinked (t : Table) (n : Node) : Type 0 where
  pub conn : Conn
  pub at : t n.sock ≡ some conn
  pub waiting : conn.state ≡ crs_waiting
  pub own : conn.socketfd ≡ pos n.sock
  pub back : conn.place ≡ node n.id
  pub bounded : in_bounds n.sock ≡ true

-- A socket has one node at most, and a record off the list has no iterator into it.
pub record IsSound (c : Cache) : Type 0 where
  pub once : Distinct (socks c.active)
  pub numbered : Distinct (ids c.active)
  pub below : All (λ n. n.id < c.fresh) c.active
  pub linked : All (IsLinked c.table) c.active
  pub idle : (s : ℕ) (r : Conn) → c.table s ≡ some r → Absent s (socks c.active) → r.place ≡ finish
  pub buffers : (s : ℕ) (r : Conn) → c.table s ≡ some r → Valid.IsValid r.buffer

pub new_cache-IsSound : IsSound new_cache
unfolding new_cache
new_cache-IsSound = record {
  once = tt;
  numbered = tt;
  below = tt;
  linked = tt;
  idle = λ s r e. ground (arith, e);
  buffers = λ s r e. ground (arith, e);
}

-- The iterator of a record is that of its node.
pub linked_id :
    (t : Table) (n : Node) (r : Conn) (i : ℕ)
    → IsLinked t n
    → t n.sock ≡ some r
    → r.place ≡ node i
    → n.id ≡ i
linked_id t n r i k e p = ground (arith, k.at, e, k.back, p)

module _ (t : Table) (s : ℕ) (r : Conn) (e : t s ≡ some r) where
  pub held_place : (ns : List Node) → Held s ns → All (IsLinked t) ns → (i : ℕ) × (r.place ≡ node i)
  held_place [] h k = absurd h
  held_place (n ∷ ns) (inl q) k = (n.id, ground (arith, k.0.at, e, k.0.back, ap t q))
  held_place (n ∷ ns) (inr h) k = held_place ns h k.1

  module _ (i : ℕ) (p : r.place ≡ node i) where
    held_id : (j : ℕ) (ns : List Node) → Held s ns → All (IsLinked t) ns → Absent j (ids ns) → i ≢ j
    held_id j [] h k a = absurd h
    held_id j (n ∷ ns) (inl q) k a = λ z. a.0 (linked_id t n r i k.0 (ap t q ∙ e) p ∙ z)
    held_id j (n ∷ ns) (inr h) k a = held_id j ns h k.1 a.1

    -- Erasing at the iterator of the record of a socket drops the node of the socket.
    pub unlink-without :
        (ns : List Node)
        → Held s ns
        → All (IsLinked t) ns
        → Distinct (ids ns)
        → Distinct (socks ns)
        → unlink i ns ≡ done (without s ns)
    unfolding unlink
    unlink-without [] h k d u = absurd h
    unlink-without (n ∷ ns) (inl q) k d u =
        ground (arith, linked_id t n r i k.0 (ap t q ∙ e) p, without-Absent n.sock ns u.0)
    unlink-without (n ∷ ns) (inr h) k d u =
        ground (arith, held_id n.id ns h k.1 d.0, unlink-without ns h k.1 d.1 u.1)
