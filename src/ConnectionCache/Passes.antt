-- ===== src/ConnectionCache/Passes.antt =====
-- The passes of SetActiveConnections: each begins where the one before it was full.
use msg_courier.Prelude.{
  ℕ, zero, suc, ◌+◌, ◌≡◌, ◌≢◌, refl, sym, ap, ◌∙◌, subst, true, false, List, [], ◌∷◌, ◌++◌,
  append-nil, append_assoc, arith, ltb, ◌==◌, if◌then◌else◌, All, All-append_right, take, drop, ◌⊎◌,
  inl, inr,
}
use msg_courier.Memory.{Outcome, done, ◌>>=◌, Returns}
use msg_courier.MsgPool.Cells.{Absent, Distinct}
use msg_courier.ConnectionCache.{Place, node, finish, Node, Table, Cache}
use msg_courier.ConnectionCache.Walk.{
  place_of, record_of, Pass, load, checked, load_loop, from_id, from_place, first_nodes, no_pass,
  load_active, set_active_connections,
}
use msg_courier.ConnectionCache.Nodes.{ids, socks}
use msg_courier.ConnectionCache.Sound.{IsLinked, IsSound}

-- The largest of the sockets, and of a number.
abbrev pub largest : ℕ → List ℕ → ℕ
largest k [] = k
largest k (s ∷ ss) = largest (if ltb k s then s else k) ss

module _ (t : Table) (size : ℕ) where
  module _ (count : ℕ) (n : Node) (ns : List Node) (pass : Pass) (k : IsLinked t n) where
    load_full :
        (suc count == size) ≡ true
        → load_loop t size count (n ∷ ns) pass
          ≡ done (record (load n.sock pass) { at = node n.id; left = place_of ns })
    unfolding load_loop record_of checked
    load_full e =
        rw (k.at, record_of)
          (rw (k.waiting, k.own, ◌>>=◌) (rw (k.bounded, checked) (rw (e, ◌>>=◌) refl)))

    load_more :
        (suc count == size) ≡ false
        → load_loop t size count (n ∷ ns) pass ≡ load_loop t size (suc count) ns (load n.sock pass)
    unfolding load_loop record_of checked
    load_more e =
        rw (k.at, record_of)
          (rw (k.waiting, k.own, ◌>>=◌) (rw (k.bounded, checked) (rw (e, ◌>>=◌) refl)))

  -- What a pass with room for `room` sockets does with the nodes from m_it on.
  record Loaded (room : ℕ) (ns : List Node) (pass pass' : Pass) : Type 0 where
    set : pass'.set ≡ pass.set ++ take room (socks ns)
    left : pass'.left ≡ place_of (drop room ns)
    max : pass'.max ≡ largest pass.max (take room (socks ns))

  below_size : (count room : ℕ) → count + suc (suc room) ≡ size → (suc count == size) ≡ false
  below_size count room e = ground arith

  module _ (n : Node) (ns : List Node) (pass : Pass) where
    Loaded-one :
        Loaded 1 (n ∷ ns) pass (record (load n.sock pass) { at = node n.id; left = place_of ns })
    unfolding load
    Loaded-one = record { set = refl; left = refl; max = refl }

    Loaded-more :
        (room : ℕ) (pass' : Pass)
        → Loaded room ns (load n.sock pass) pass'
        → Loaded (suc room) (n ∷ ns) pass pass'
    unfolding load
    Loaded-more room pass' h = record {
      set = h.set ∙ append_assoc pass.set (n.sock ∷ []) (take room (socks ns));
      left = h.left;
      max = h.max;
    }

    load_left : pass.left ≡ finish → (load n.sock pass).left ≡ finish
    unfolding load
    load_left l = l

  load_loop-Loaded :
      (count room : ℕ) (ns : List Node) (pass : Pass)
      → count + suc room ≡ size
      → All (IsLinked t) ns
      → pass.left ≡ finish
      → (pass' : Pass) × (load_loop t size count ns pass ≡ done pass')
        × Loaded (suc room) ns pass pass'
  unfolding load_loop
  load_loop-Loaded count room [] pass e k l = (
    record pass { at = finish },
    refl,
    record { set = sym (append-nil pass.set); left = l; max = refl },
  )
  load_loop-Loaded count zero (n ∷ ns) pass e k l = (
    record (load n.sock pass) { at = node n.id; left = place_of ns },
    load_full count n ns pass k.0 (ground (arith, e)),
    Loaded-one n ns pass,
  )
  load_loop-Loaded count (suc room) (n ∷ ns) pass e k l =
      let (pass', ran, rest) =
        load_loop-Loaded (suc count) room ns (load n.sock pass) (omega arith) k.1
          (load_left n ns pass l) in
      (
        pass',
        load_more count n ns pass k.0 (below_size count room e) ∙ ran,
        Loaded-more n ns pass (suc room) pass' rest,
      )

-- The nodes with which a pass begins.
abbrev pub Begins : Cache → List Node → Type 0
Begins c rest =
    ((c.marker ≡ finish) × (rest ≡ c.active))
    ⊎ ((pre : List Node) × (n : Node) × (ns : List Node) × (rest ≡ n ∷ ns)
        × (c.active ≡ pre ++ n ∷ ns)
        × (c.marker ≡ node n.id))

Absent-at :
    (j : ℕ) (ms : List Node) (n : Node) (ns : List Node) → Absent j (ids (ms ++ n ∷ ns)) → n.id ≢ j
Absent-at j [] n ns a = a.0
Absent-at j (m ∷ ms) n ns a = Absent-at j ms n ns a.1

pub from_id-append :
    (pre : List Node) (n : Node) (ns : List Node)
    → Distinct (ids (pre ++ n ∷ ns))
    → from_id n.id (pre ++ n ∷ ns) ≡ done (n ∷ ns)
unfolding from_id
from_id-append [] n ns d = ground arith
from_id-append (m ∷ ms) n ns d =
    ground (arith, Absent-at m.id ms n ns d.0, from_id-append ms n ns d.1)

-- What a call leaves: the sockets given to FD_SET, and the cache for the next call.
pub record Passed (c : Cache) (room : ℕ) (rest : List Node) (pass : Pass) (c' : Cache)
    : Type 0 where
  pub set : pass.set ≡ take room (socks rest)
  pub max : pass.max ≡ largest 0 (take room (socks rest))
  pub sound' : IsSound c'
  pub active : c'.active ≡ c.active
  pub table : c'.table ≡ c.table
  pub marker : c'.marker ≡ place_of (drop room rest)

module _ (c : Cache) (sound : IsSound c) where
  first_nodes-done : (rest : List Node) → Begins c rest → first_nodes c.marker c.active ≡ done rest
  unfolding first_nodes from_place
  first_nodes-done rest (inl (m, e)) = rw (m, first_nodes) (ap done (sym e))
  first_nodes-done rest (inr (pre, n, ns, e, split, m)) =
      rw (m, split, e)
        (from_id-append pre n ns (subst (λ xs. Distinct (ids xs)) split sound.numbered))

  pub moved-IsSound : (at left : Place) → IsSound (record c { cursor = at; marker = left })
  moved-IsSound at left = record {
    once = sound.once;
    numbered = sound.numbered;
    below = sound.below;
    linked = sound.linked;
    idle = sound.idle;
    buffers = sound.buffers;
  }

  Begins-IsLinked : (rest : List Node) → Begins c rest → All (IsLinked c.table) rest
  Begins-IsLinked rest (inl (m, e)) = subst (All (IsLinked c.table)) (sym e) sound.linked
  Begins-IsLinked rest (inr (pre, n, ns, e, split, m)) =
      subst (All (IsLinked c.table)) (sym e)
        (All-append_right _ pre (n ∷ ns) (subst (All (IsLinked c.table)) split sound.linked))

  Begins-empty :
      (rest : List Node) → c.active ≡ [] → Begins c rest → (c.marker ≡ finish) × (rest ≡ [])
  Begins-empty rest e (inl (m, q)) = (m, q ∙ e)
  Begins-empty rest e (inr ([], n, ns, q, split, m)) = ground (arith, e, split)
  Begins-empty rest e (inr (p ∷ ps, n, ns, q, split, m)) = ground (arith, e, split)

  module _ (room : ℕ) where
    abbrev Loads : List Node → Outcome Pass → Type 0
    Loads rest o =
        (pass : Pass) × (o ≡ done pass)
        × (pass.set ≡ take (suc room) (socks rest))
        × (pass.max ≡ largest 0 (take (suc room) (socks rest)))
        × (pass.left ≡ place_of (drop (suc room) rest))

    load_active-Loads :
        (ns rest : List Node)
        → c.active ≡ ns
        → Begins c rest
        → Loads rest (load_active (suc room) c ns)
    unfolding load_active no_pass
    load_active-Loads [] rest e b =
        let (m, q) = Begins-empty rest e b in (no_pass c, refl, rw q refl, rw q refl, rw q m)
    load_active-Loads (n ∷ ns) rest e b =
        let (pass, ran, l) =
          load_loop-Loaded c.table (suc room) 0 room rest (record (no_pass c) { left = finish })
            (omega arith) (Begins-IsLinked rest b) refl in
        (
          pass,
          rw (sym (ap (first_nodes c.marker) e) ∙ first_nodes-done rest b) ran,
          l.set,
          l.max,
          l.left,
        )

    -- A call of SetActiveConnections on a sound cache returns.
    pub set_active_connections-Passed :
        (rest : List Node)
        → Begins c rest
        → Returns (λ r. Passed c (suc room) rest r.0 r.1) (set_active_connections (suc room) c)
    unfolding set_active_connections
    set_active_connections-Passed rest b =
        let (pass, ran, set, max, left) = load_active-Loads c.active rest refl b in
        rw (ran, set_active_connections)
          (record {
            set = set;
            max = max;
            sound' = moved-IsSound pass.at pass.left;
            active = refl;
            table = refl;
            marker = left;
          })
