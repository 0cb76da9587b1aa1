-- ===== src/ConnectionCache/Freeing.antt =====
-- FreeConnection on a sound cache.
use msg_courier.Prelude.{
  ℕ, zero, suc, ◌≡◌, ◌≢◌, refl, sym, ap, ◌∙◌, pos, true, none, some, List, [], ◌∷◌, ◌++◌, arith,
  ◌==◌, All, All-map, All-filter, inl, inr, Bool-cases, Option-cases,
}
use msg_courier.Memory.{done, fault, Returns, ◌>>=◌}
use msg_courier.MsgPool.Cells.{Absent}
use msg_courier.Buffer.Valid
use msg_courier.ConnectionCache.{
  finish, Conn, Node, Table, Cache, put_record, close_socket, erase, freed, free_known,
  free_connection, in_bounds, mark_pending_write, get_connection_record, mark, or_blank, blank,
  singular,
}
use msg_courier.ConnectionCache.Nodes.{
  socks, without, Held-cases, without-Absent, Distinct-filter, All-without, Absent-without_back,
}
use msg_courier.ConnectionCache.Sound.{IsLinked, IsSound, held_place, unlink-without}

pub put_record_self : (s : ℕ) (r : Conn) (t : Table) → put_record s r t s ≡ some r
unfolding put_record
put_record_self s r t = ground arith

pub put_record_ne : (s q : ℕ) (r : Conn) (t : Table) → q ≢ s → put_record s r t q ≡ t q
unfolding put_record
put_record_ne s q r t h = ground arith

-- The socket is off the list and closed, and the others stay.
pub record Freed (s : ℕ) (c c' : Cache) : Type 0 where
  pub sound : IsSound c'
  pub rest : c'.active ≡ without s c.active
  pub place : c'.cursor ≡ c.cursor
  pub mark : c'.marker ≡ c.marker
  pub calls : c'.closed ≡ c.closed ++ pos s ∷ []
  pub others : (q : ℕ) → q ≢ s → c'.table q ≡ c.table q
  pub stays : (r : Conn) → c.table s ≡ some r → (r' : Conn) × (c'.table s ≡ some r')

pub IsLinked-put_record :
    (s : ℕ) (r : Conn) (t : Table) (n : Node)
    → IsLinked t n × (n.sock ≢ s)
    → IsLinked (put_record s r t) n
IsLinked-put_record s r t n (k, ne) = record {
  conn = k.conn;
  at = put_record_ne s n.sock r t ne ∙ k.at;
  waiting = k.waiting;
  own = k.own;
  back = k.back;
  bounded = k.bounded;
}

module _ (s : ℕ) (c : Cache) (sound : IsSound c) where
  -- A property of records that holds of the new one holds throughout.
  pub put_record_keeps :
      (P : ℕ → Conn → Type 0) (r : Conn)
      → P s r
      → ((q : ℕ) (r' : Conn) → q ≢ s → c.table q ≡ some r' → P q r')
      → (q : ℕ) (r' : Conn) → put_record s r c.table q ≡ some r'
      → P q r'
  unfolding put_record
  put_record_keeps P r h k q r' e = elim (Bool-cases (q == s)) [
    | inl same ↦ ground (arith, same, e, h)
    | inr other ↦ ground (arith, other, e, k q r')
  ]

  erase-without :
      (r : Conn) → c.table s ≡ some r → erase r.place c.active ≡ done (without s c.active)
  unfolding erase
  erase-without r e = elim (Held-cases s c.active) [
    | inl a ↦ rw (sound.idle s r e a, erase) (ap done (sym (without-Absent s c.active a)))
    | inr h ↦
        let (i, p) = held_place c.table s r e c.active h sound.linked in
        rw (p, erase)
          (unlink-without c.table s r e i p c.active h sound.linked sound.numbered sound.once)
  ]

  freed-IsSound :
      (r : Conn)
      → c.table s ≡ some r
      → IsSound (
          close_socket
            (pos s)
            (record c { active = without s c.active; table = put_record s (freed r) c.table }))
  unfolding close_socket freed
  freed-IsSound r e = record {
    once = Distinct-filter (λ n. n.sock) _ c.active sound.once;
    numbered = Distinct-filter (λ n. n.id) _ c.active sound.numbered;
    below = All-filter _ _ c.active sound.below;
    linked =
        All-map _ (IsLinked (put_record s (freed r) c.table)) _
          (IsLinked-put_record s (freed r) c.table)
          (All-without (IsLinked c.table) s c.active sound.linked);
    idle =
        put_record_keeps (λ q r'. Absent q (socks (without s c.active)) → r'.place ≡ finish)
          (freed r) (λ a. refl)
          (λ q r' ne e' a. sound.idle q r' e' (Absent-without_back q s c.active ne a));
    buffers =
        put_record_keeps (λ q r'. Valid.IsValid r'.buffer) (freed r) (sound.buffers s r e)
          (λ q r' ne e'. sound.buffers q r' e');
  }

  free_known-Freed : (r : Conn) → c.table s ≡ some r → Returns (Freed s c) (free_known s r c)
  unfolding free_known close_socket
  free_known-Freed r e = rw (erase-without r e) (record {
    sound = freed-IsSound r e;
    rest = refl;
    place = refl;
    mark = refl;
    calls = refl;
    others = λ q ne. put_record_ne s q (freed r) c.table ne;
    stays = λ r' e'. (freed r, put_record_self s (freed r) c.table);
  })

  not_held : c.table s ≡ none → (ns : List Node) → All (IsLinked c.table) ns → Absent s (socks ns)
  not_held e [] k = tt
  not_held e (n ∷ ns) k = (λ q. ground (arith, k.0.at, ap c.table q, e), not_held e ns k.1)

  close-Freed : c.table s ≡ none → Freed s c (close_socket (pos s) c)
  unfolding close_socket
  close-Freed e = record {
    sound = record {
      once = sound.once;
      numbered = sound.numbered;
      below = sound.below;
      linked = sound.linked;
      idle = sound.idle;
      buffers = sound.buffers;
    };
    rest = sym (without-Absent s c.active (not_held e c.active sound.linked));
    place = refl;
    mark = refl;
    calls = refl;
    others = λ q ne. refl;
    stays = λ r e'. (r, e');
  }

  -- On a sound cache FreeConnection of a socket returns, whether the socket is known or not: the
  -- cache stays sound, the list is the one before without the nodes of the socket, which is
  -- closed, and the other records stay.
  pub free_connection-Freed : Returns (Freed s c) (free_connection (pos s) c)
  unfolding free_connection
  free_connection-Freed = elim (Option-cases (c.table s)) [
    | inl e ↦ rw (e, free_connection) (close-Freed e)
    | inr (r, e) ↦ rw (e, free_connection) (free_known-Freed r e)
  ]

free_singular :
    (s : ℕ) (c : Cache) (r : Conn)
    → c.table s ≡ some r
    → r.place ≡ singular
    → free_connection (pos s) c ≡ fault
unfolding free_connection free_known erase
free_singular s c r e p = rw (e, free_connection) (rw (p, erase) refl)

mark_unknown :
    (s : ℕ) (c : Cache)
    → c.table s ≡ none
    → (r : Conn) × ((mark
            (some s)
            (record c { table = put_record s (or_blank (c.table s)) c.table })).table
          s
        ≡ some r)
      × (r.place ≡ singular)
unfolding mark or_blank blank
mark_unknown s c e = (
  record (or_blank (put_record s (or_blank (c.table s)) c.table s)) { pending_write = true },
  put_record_self s _ (put_record s (or_blank (c.table s)) c.table),
  ap (λ o. (or_blank o).place) (put_record_self s (or_blank (c.table s)) c.table)
      ∙ ap (λ o. (or_blank o).place) e,
)

-- Where the map has no record of a socket within bounds, MarkPendingWrite makes one without an
-- iterator, and FreeConnection of the socket then erases at no node, which is undefined behaviour.
pub free_marked-fault :
    (s : ℕ) (c : Cache)
    → in_bounds s ≡ true
    → c.table s ≡ none
    → (mark_pending_write (pos s) c >>= free_connection (pos s)) ≡ fault
unfolding mark_pending_write get_connection_record
free_marked-fault zero c range e = ground (arith, range)
free_marked-fault (suc s) c range e =
    let (r, at, p) = mark_unknown (suc s) c e in rw (range, ◌>>=◌) (free_singular (suc s) _ r at p)
