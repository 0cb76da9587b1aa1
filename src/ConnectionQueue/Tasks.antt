-- ===== src/ConnectionQueue/Tasks.antt =====
-- The loop of ProcessInboundTasks: the enumerator of the cache outlives the nodes that are freed.
use msg_courier.Prelude.{
  ℕ, zero, suc, ◌<◌, ◌≡◌, ◌≢◌, refl, sym, ap, ap₂, ◌∙◌, subst, ℤ, Bool, true, false, not, Option,
  none, some, List, [], ◌∷◌, ◌++◌, append_assoc, arith, if◌then◌else◌, length, All, All-map,
  All-append_right, filter, filter-congr, filter-append, filter-none, filter-All, inl, inr, ◌⊎◌,
  length-append,
}
use msg_courier.Memory.{done, ◌>>=◌, Returns, Returns-bind}
use msg_courier.MsgPool.Cells.{Distinct}
use msg_courier.ConnectionCache.{Conn, Node, Cache, Place, finish}
use msg_courier.ConnectionCache.Walk.{place_of, from_place, reset_enumerator, get_next_set_record}
use msg_courier.ConnectionCache.Nodes.{ids, socks, Distinct-middle, All-Absent}
use msg_courier.ConnectionCache.Sound.{IsLinked, IsSound}
use msg_courier.ConnectionQueue.{
  Handler, handle_record, add_task, inbound_loop, process_inbound_tasks,
}
use msg_courier.ConnectionQueue.Inbound.{
  IsTame, ready_conn, is_ready_at, Stops, next_loop-Stops, from_place-done, closes_conn,
  is_closed_at, Tended, Handled, handle_record-Handled,
}

cursor-IsSound : (c : Cache) (at : Place) → IsSound c → IsSound (record c { cursor = at })
cursor-IsSound c at s = record {
  once = s.once;
  numbered = s.numbered;
  below = s.below;
  linked = s.linked;
  idle = s.idle;
  buffers = s.buffers;
}

split_if :
    (b : Bool) (n : Node) (ns : List Node)
    → (if not b then n ∷ ns else ns) ≡ (if b then [] else n ∷ []) ++ ns
split_if true n ns = refl
split_if false n ns = refl

module _ (handle : Handler) (tame : IsTame handle) (isset : ℤ → Bool) where
  not_closed :
      (o : Option Conn) (s : ℕ)
      → ready_conn isset o ≡ false
      → not (closes_conn handle tame isset o s) ≡ true
  not_closed none s e = refl
  not_closed (some r) s e = rw e refl

  module _ (c : Cache) (pre rest : List Node) (n : Node) (ns : List Node)
      (stops : Stops isset c.table rest n ns) (c₂ : Cache)
      (here : Handled handle tame isset
        (record c { cursor = place_of ns })
        (pre ++ stops.skipped)
        n
        ns
        c₂)
      (fresh : All (λ m. m.sock ≢ n.sock) ns) where
    abbrev seen : List Node
    seen =
        (pre ++ stops.skipped) ++ (if is_closed_at handle tame isset c.table n then [] else n ∷ [])

    ready_left :
        filter (is_ready_at isset c.table) rest ≡ n ∷ filter (is_ready_at isset c₂.table) ns
    ready_left =
        ap (filter (is_ready_at isset c.table)) stops.split
        ∙ filter-append _ stops.skipped (n ∷ ns)
        ∙ ap (λ xs. xs ++ filter (is_ready_at isset c.table) (n ∷ ns))
            (filter-none _ stops.skipped stops.unready)
        ∙ rw (stops.ready) (
            ap (λ xs. n ∷ xs)
              (filter-congr _ _ ns (
                All-map _ _ ns (λ m ne. ap (ready_conn isset) (sym (here.others m.sock ne)))
                  fresh)))

    abbrev still_open : Node → Bool
    still_open m = not (is_closed_at handle tame isset c.table m)

    open_left :
        filter (λ m. not (is_closed_at handle tame isset c.table m)) (n ∷ ns)
        ≡ (if is_closed_at handle tame isset c.table n then [] else n ∷ [])
          ++ filter (λ m. not (is_closed_at handle tame isset c.table m)) ns
    open_left = split_if (is_closed_at handle tame isset c.table n) n _

    kept_left :
        seen ++ filter (λ m. not (is_closed_at handle tame isset c₂.table m)) ns
        ≡ pre ++ filter (λ m. not (is_closed_at handle tame isset c.table m)) rest
    kept_left =
        ap (λ xs. seen ++ xs)
          (filter-congr _ _ ns (
            All-map _ _ ns
              (λ m ne.
                ap (λ o. not (closes_conn handle tame isset o m.sock)) (here.others m.sock ne))
              fresh))
        ∙ append_assoc (pre ++ stops.skipped) _ _
        ∙ append_assoc pre stops.skipped _
        ∙ ap (λ xs. pre ++ (stops.skipped ++ xs)) (sym open_left)
        ∙ ap (λ xs. pre ++ (xs ++ filter still_open (n ∷ ns)))
            (sym (
              filter-All still_open stops.skipped
                (All-map _ _ _ (λ m. not_closed (c.table m.sock) m.sock) stops.unready)))
        ∙ ap (λ xs. pre ++ xs) (sym (filter-append still_open stops.skipped (n ∷ ns)))
        ∙ ap (λ xs. pre ++ filter still_open xs) (sym stops.split)

    Tended-next :
        (o : Option (List ℕ × Cache))
        → Tended handle tame isset c₂ seen ns o
        → Tended handle tame isset c pre rest (add_task n.sock o)
    Tended-next none t = absurd t
    Tended-next (some (ss, c')) (e, a, s, m) =
        (ap (λ xs. n.sock ∷ xs) e ∙ ap socks (sym ready_left), a ∙ kept_left, s, m ∙ here.mark)

  -- Where the enumerator stands at a node of a sound cache, GetNextSetRecord passes it over or
  -- returns it.
  next-cases :
      (c : Cache) (pre rest : List Node)
      → IsSound c
      → c.active ≡ pre ++ rest
      → c.cursor ≡ place_of rest
      → ((get_next_set_record isset c ≡ done (none, record c { cursor = finish }))
          × All (λ m. is_ready_at isset c.table m ≡ false) rest)
        ⊎ ((n : Node) × (ns : List Node) × (get_next_set_record isset c
              ≡ done (some n.sock, record c { cursor = place_of ns }))
            × Stops isset c.table rest n ns)
  unfolding get_next_set_record
  next-cases c pre rest s split at =
      let start =
        ap₂ from_place at split
        ∙ from_place-done pre rest (subst (λ xs. Distinct (ids xs)) split s.numbered) in
      let k = All-append_right _ pre rest (subst (All (IsLinked c.table)) split s.linked) in
      elim (next_loop-Stops isset c.table rest k) [
        | inl (ran, unready) ↦ inl (rw (start, ◌>>=◌) (rw (ran, ◌>>=◌) refl), unready)
        | inr (n, ns, ran, stops) ↦ inr (n, ns, rw (start, ◌>>=◌) (rw (ran, ◌>>=◌) refl), stops)
      ]

  none_ready :
      (c : Cache) (pre rest : List Node)
      → IsSound c
      → c.active ≡ pre ++ rest
      → All (λ m. is_ready_at isset c.table m ≡ false) rest
      → Tended handle tame isset c pre rest (some ([], record c { cursor = finish }))
  none_ready c pre rest s split unready = (
    ap socks (sym (filter-none _ rest unready)),
    split
        ∙ ap (λ xs. pre ++ xs)
            (sym (
              filter-All _ rest (All-map _ _ _ (λ m. not_closed (c.table m.sock) m.sock) unready))),
    cursor-IsSound c finish s,
    refl,
  )

  shorter :
      {fuel : ℕ} (c : Cache) (rest : List Node) (n : Node) (ns : List Node)
      → Stops isset c.table rest n ns
      → length rest < suc fuel
      → length ns < fuel
  shorter c rest n ns stops enough =
      omega (arith, ap length stops.split, length-append stops.skipped (n ∷ ns), enough)

  -- One round, given what the rounds after it do.
  step :
      (f : ℕ) (c : Cache) (pre rest : List Node)
      → IsSound c
      → c.active ≡ pre ++ rest
      → (n : Node) (ns : List Node) → Stops isset c.table rest n ns
      → ((c₂ : Cache) (pre₂ : List Node)
          → IsSound c₂
          → c₂.active ≡ pre₂ ++ ns
          → c₂.cursor ≡ place_of ns
          → Returns (Tended handle tame isset c₂ pre₂ ns) (inbound_loop f handle isset c₂))
      → Returns (Tended handle tame isset c pre rest) (
          handle_record handle n.sock (c.table n.sock) (record c { cursor = place_of ns }) >>= λ c₂.
          inbound_loop f handle isset c₂ >>= λ o. done (add_task n.sock o))
  step f c pre rest s split n ns stops later =
      let c₁ = record c { cursor = place_of ns } in
      let split₁ =
        split ∙ ap (λ xs. pre ++ xs) stops.split ∙ sym (append_assoc pre stops.skipped (n ∷ ns)) in
      let once = subst (λ xs. Distinct (socks xs)) split₁ s.once in
      let linked =
        All-append_right _ (pre ++ stops.skipped) (n ∷ ns)
          (subst (All (IsLinked c.table)) split₁ s.linked) in
      let fresh =
        All-map _ _ ns (λ m h. h.1)
          (All-Absent (IsLinked c.table) n.sock ns linked.1
            (Distinct-middle (pre ++ stops.skipped) n ns once).0) in
      Returns-bind (Handled handle tame isset c₁ (pre ++ stops.skipped) n ns)
        (Tended handle tame isset c pre rest) (handle_record handle n.sock (c.table n.sock) c₁) _
        (handle_record-Handled handle tame isset c₁ (pre ++ stops.skipped) n ns linked.0
          (cursor-IsSound c (place_of ns) s) split₁ refl stops.ready)
        λ c₂ here.
          Returns-bind (Tended handle tame isset c₂ (seen c pre rest n ns stops c₂ here fresh) ns)
            (Tended handle tame isset c pre rest) (inbound_loop f handle isset c₂) _
            (later c₂ (seen c pre rest n ns stops c₂ here fresh) here.sound
              (here.active ∙ sym (append_assoc (pre ++ stops.skipped) _ ns)) here.place)
            (Tended-next c pre rest n ns stops c₂ here fresh)

  loop-Tended :
      (fuel : ℕ) (c : Cache) (pre rest : List Node)
      → IsSound c
      → c.active ≡ pre ++ rest
      → c.cursor ≡ place_of rest
      → length rest < fuel
      → Returns (Tended handle tame isset c pre rest) (inbound_loop fuel handle isset c)
  unfolding inbound_loop
  loop-Tended zero c pre rest s split at enough = absurd (omega arith)
  loop-Tended (suc f) c pre rest s split at enough = elim (next-cases c pre rest s split at) [
    | inl (ran, unready) ↦ rw (ran, inbound_loop) (none_ready c pre rest s split unready)
    | inr (n, ns, ran, stops) ↦
        rw (ran, inbound_loop)
          (step f c pre rest s split n ns stops λ c₂ pre₂ s₂ split₂ at₂.
            loop-Tended f c₂ pre₂ ns s₂ split₂ at₂ (shorter c rest n ns stops enough))
  ]

  -- With more fuel than there are active connections, on a sound cache ProcessInboundTasks
  -- returns, where the handler leaves what the cache needs of a record: the connections that are
  -- ready are handled once each and in order, those that the handler closes are off the list and
  -- the others stay, and the cache is sound.
  pub process_inbound_tasks-Tended :
      (fuel : ℕ) (c : Cache)
      → IsSound c
      → length c.active < fuel
      → Returns (Tended handle tame isset c [] c.active) (process_inbound_tasks fuel handle isset c)
  unfolding process_inbound_tasks reset_enumerator
  process_inbound_tasks-Tended fuel c s enough =
      loop-Tended fuel (record c { cursor = place_of c.active }) [] c.active
        (cursor-IsSound c (place_of c.active) s) refl refl enough
