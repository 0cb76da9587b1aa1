-- ===== src/ConnectionCache/Timeout.antt =====
-- TimeoutConnections ends, although it starts again from the head of the list after each connection
-- that it frees, and frees exactly the stale ones.
use msg_courier.Prelude.{
  ltb, ◌+◌, ◌&&◌, ℕ, zero, suc, ◌<◌, ◌≡◌, refl, sym, ap, ◌∙◌, subst, pos, Bool, true, false, not,
  Option, none, some, List, [], ◌∷◌, ◌++◌, map, append-nil, append_assoc, arith, ◌==◌, length, All,
  All-map, All-append, filter, filter-congr, filter-All, filter-none, inl, inr, filter-filter,
  ==_iff, Bool-cases,
}
use msg_courier.Memory.{done, Returns, Returns-bind, Returns-map, ◌>>=◌}
use msg_courier.MsgPool.Cells.{Absent, Distinct}
use msg_courier.ConnectionCache.{
  ConnState, crs_free, crs_waiting, is_waiting, Conn, Node, Table, Cache, finish, free_connection,
}
use msg_courier.ConnectionCache.Walk.{
  record_of, is_stale, timeout_loop, timeout_from, timeout_connections,
}
use msg_courier.ConnectionCache.Nodes.{
  socks, without, Held, Held-append, length-without, All-without, without-Absent,
}
use msg_courier.ConnectionCache.Sound.{IsLinked, IsSound}
use msg_courier.ConnectionCache.Freeing.{Freed, free_connection-Freed}

-- The rounds of the loop after the first connection is freed, for a list of k nodes.
unfoldable pub restarts : ℕ → ℕ
restarts zero = 0
restarts (suc k) = restarts k + suc k

restarts_lt : (j k : ℕ) → j < k → restarts j + j < restarts k
unfolding restarts
restarts_lt j zero h = absurd (omega arith)
restarts_lt j (suc k) h = elim (Bool-cases (j == k)) [
  | inl e ↦ ground (arith, e)
  | inr e ↦ ground (arith, e, restarts_lt j k)
]

-- A connection has outlived its use, by its pending write, its state and whether it is old.
abbrev pub outlived : Bool → ConnState → Bool → Bool
outlived false crs_waiting old = old
outlived false crs_free old = false
outlived true state old = false

stale-outlived :
    (pending : Bool) (state : ConnState) (old : Bool)
    → (not pending && is_waiting state && old) ≡ outlived pending state old
stale-outlived false crs_waiting old = refl
stale-outlived false crs_free old = refl
stale-outlived true state old = refl

module _ (now timeout : ℕ) where
  abbrev stale_conn : Option Conn → Bool
  stale_conn none = false
  stale_conn (some r) = outlived r.pending_write r.state (ltb (r.timestamp + timeout) now)

  is_stale_lem : (r : Conn) → is_stale now timeout r ≡ stale_conn (some r)
  unfolding is_stale
  is_stale_lem r = stale-outlived r.pending_write r.state (ltb (r.timestamp + timeout) now)

  abbrev pub is_stale_at : Table → Node → Bool
  is_stale_at t n = stale_conn (t n.sock)

  -- The stale connections are off the list and closed, in order, and the other records stay.
  pub record TimedOut (c c' : Cache) : Type 0 where
    pub sound : IsSound c'
    pub mark : c'.marker ≡ c.marker
    pub kept : c'.active ≡ filter (λ n. not (is_stale_at c.table n)) c.active
    pub calls :
        c'.closed ≡ c.closed ++ map (λ n. pos n.sock) (filter (is_stale_at c.table) c.active)
    pub others :
        (q : ℕ) → Absent q (socks (filter (is_stale_at c.table) c.active)) → c'.table q ≡ c.table q

  abbrev pub Finished : Cache → Option Cache → Type 0
  Finished c none = ⊥
  Finished c (some c') = TimedOut c c'

  same_sock : (q s : ℕ) → not (q == s) ≡ false → q ≡ s
  same_sock q s e = ground (arith, e)

  -- Without one node that is stale, the same nodes are kept.
  kept_without :
      (t : Table) (s : ℕ) (ns : List Node)
      → stale_conn (t s) ≡ true
      → filter (λ n. not (is_stale_at t n)) (without s ns) ≡ filter (λ n. not (is_stale_at t n)) ns
  kept_without t s ns h =
      filter-filter _ _ ns λ n e. ap not (ap (λ q. stale_conn (t q)) (same_sock n.sock s e) ∙ h)

  -- The first stale node leads the list of those that are freed.
  first_stale :
      (t : Table) (pre : List Node) (n : Node) (ns : List Node)
      → All (λ m. is_stale_at t m ≡ false) pre
      → is_stale_at t n ≡ true
      → Distinct (socks (pre ++ n ∷ ns))
      → filter (is_stale_at t) (pre ++ n ∷ ns)
        ≡ n ∷ filter (is_stale_at t) (without n.sock (pre ++ n ∷ ns))
  first_stale t [] n ns h e d = elim (Bool-cases (n.sock == n.sock)) [
    | inl same ↦ rw (same, e, without-Absent n.sock ns d.0)
    | inr other ↦ absurd (ground (arith, other))
  ]
  first_stale t (m ∷ ms) n ns h e d = elim (Bool-cases (m.sock == n.sock)) [
    | inl same ↦
        absurd (ground (arith, h.0, e, ap (λ q. stale_conn (t q)) ((==_iff m.sock n.sock).0 same)))
    | inr other ↦ rw (other, h.0) (first_stale t ms n ns h.1 e d.1)
  ]

  cursor-IsSound : (c : Cache) → IsSound c → IsSound (record c { cursor = finish })
  cursor-IsSound c s = record {
    once = s.once;
    numbered = s.numbered;
    below = s.below;
    linked = s.linked;
    idle = s.idle;
    buffers = s.buffers;
  }

  none_stale :
      (c : Cache)
      → IsSound c
      → All (λ m. is_stale_at c.table m ≡ false) c.active
      → TimedOut c (record c { cursor = finish })
  none_stale c s h = record {
    sound = cursor-IsSound c s;
    mark = refl;
    kept = sym (filter-All _ c.active (All-map _ _ c.active (λ n e. ap not e) h));
    calls = rw (filter-none (is_stale_at c.table) c.active h) (sym (append-nil c.closed));
    others = λ q a. refl;
  }

  -- One stale node is freed, then the others: together that is one run.
  module _ (pre : List Node) (n : Node) (ns : List Node) (c c₁ : Cache)
      (split : c.active ≡ pre ++ n ∷ ns) (fresh : All (λ m. is_stale_at c.table m ≡ false) pre)
      (stale : is_stale_at c.table n ≡ true) (sound : IsSound c) (freed : Freed n.sock c c₁) where
    same_staleness :
        All (λ m. is_stale_at c₁.table m ≡ is_stale_at c.table m) (without n.sock c.active)
    same_staleness =
        All-map _ _ _ (λ m h. ap stale_conn (freed.others m.sock h.1))
          (All-without _ n.sock c.active sound.linked)

    stale_left : filter (is_stale_at c.table) c.active ≡ n ∷ filter (is_stale_at c₁.table) c₁.active
    stale_left =
        subst
          (λ xs.
            filter (is_stale_at c.table) xs ≡ n ∷ filter (is_stale_at c.table) (without n.sock xs))
          (sym split)
          (first_stale c.table pre n ns fresh stale
            (subst (λ xs. Distinct (socks xs)) split sound.once))
        ∙ ap (λ xs. n ∷ xs)
            (sym
              (ap (filter (is_stale_at c₁.table)) freed.rest ∙ filter-congr _ _ _ same_staleness))

    kept_left :
        filter (λ m. not (is_stale_at c₁.table m)) c₁.active
        ≡ filter (λ m. not (is_stale_at c.table m)) c.active
    kept_left =
        ap (filter (λ m. not (is_stale_at c₁.table m))) freed.rest
        ∙ filter-congr _ _ _ (All-map _ _ _ (λ m e. ap not e) same_staleness)
        ∙ kept_without c.table n.sock c.active stale

    continued : (c' : Cache) → TimedOut c₁ c' → TimedOut c c'
    continued c' t = record {
      sound = t.sound;
      mark = t.mark ∙ freed.mark;
      kept = t.kept ∙ kept_left;
      calls =
          t.calls
          ∙ ap (λ xs. xs ++ map (λ m. pos m.sock) (filter (is_stale_at c₁.table) c₁.active))
              freed.calls
          ∙ append_assoc c.closed _ _
          ∙ ap (λ xs. c.closed ++ map (λ m. pos m.sock) xs) (sym stale_left);
      others = λ q a.
          let a' = subst (λ xs. Absent q (socks xs)) stale_left a in
          t.others q a'.1 ∙ freed.others q (λ e. a'.0 (sym e));
    }

    finished : (o : Option Cache) → Finished c₁ o → Returns (Finished c) (done o)
    finished none t = absurd t
    finished (some c') t = continued c' t

    shorter : length c₁.active < length c.active
    shorter = rw (freed.rest) (
        length-without n.sock c.active
          (subst (Held n.sock) (sym split) (Held-append n.sock pre n ns refl)))

  node_at :
      (pre : List Node) (n : Node) (ns : List Node) (t : Table)
      → All (IsLinked t) (pre ++ n ∷ ns)
      → IsLinked t n
  node_at [] n ns t k = k.0
  node_at (m ∷ ms) n ns t k = node_at ms n ns t k.1

  module _ (f : ℕ) (n : Node) (ns : List Node) (c : Cache) (r : Conn)
      (at : c.table n.sock ≡ some r) where
    step_stale :
        is_stale now timeout r ≡ true
        → timeout_loop (suc f) now timeout (n ∷ ns) c
          ≡ (free_connection r.socketfd c >>= λ c'. timeout_loop f now timeout c'.active c')
    unfolding timeout_loop record_of
    step_stale e = rw (at, record_of) (rw (e, ◌>>=◌) refl)

    step_live :
        is_stale now timeout r ≡ false
        → timeout_loop (suc f) now timeout (n ∷ ns) c ≡ timeout_loop f now timeout ns c
    unfolding timeout_loop record_of
    step_live e = rw (at, record_of) (rw (e, ◌>>=◌) refl)

  loop-Finished :
      (fuel : ℕ) (pre rest : List Node) (c : Cache)
      → IsSound c
      → c.active ≡ pre ++ rest
      → All (λ m. is_stale_at c.table m ≡ false) pre
      → restarts (length c.active) + length rest < fuel
      → Returns (Finished c) (timeout_loop fuel now timeout rest c)
  unfolding timeout_loop
  loop-Finished zero pre rest c s e h enough = absurd (omega arith)
  loop-Finished (suc f) pre [] c s e h enough =
      none_stale c s (subst (All _) (sym (e ∙ append-nil pre)) h)
  loop-Finished (suc f) pre (n ∷ ns) c s e h enough =
      let k = node_at pre n ns c.table (subst (All (IsLinked c.table)) e s.linked) in
      elim (Bool-cases (is_stale now timeout k.conn)) [
        | inl stale ↦
            let at = ap stale_conn k.at ∙ sym (is_stale_lem k.conn) ∙ stale in
            rw (step_stale f n ns c k.conn k.at stale, k.own)
              (Returns-bind (Freed n.sock c) (Finished c) (free_connection (pos n.sock) c) _
                (free_connection-Freed n.sock c s)
                λ c₁ freed.
                  let less = shorter pre n ns c c₁ e h at s freed in
                  Returns-map (Finished c₁) (Finished c) (timeout_loop f now timeout c₁.active c₁)
                    (loop-Finished f [] c₁.active c₁ freed.sound refl tt
                      (omega (arith, restarts_lt (length c₁.active) (length c.active) less)))
                    (finished pre n ns c c₁ e h at s freed))
        | inr live ↦
            let at = ap stale_conn k.at ∙ sym (is_stale_lem k.conn) ∙ live in
            rw (step_live f n ns c k.conn k.at live) (
              loop-Finished f (pre ++ n ∷ []) ns c s (e ∙ sym (append_assoc pre (n ∷ []) ns))
                (All-append _ pre (n ∷ []) h (at, tt)) (omega arith))
      ]

  timeout_from-Finished :
      (fuel : ℕ) (c : Cache) (ns : List Node)
      → c.active ≡ ns
      → IsSound c
      → restarts (length ns) + length ns < fuel
      → Returns (Finished c) (timeout_from fuel now timeout ns c)
  unfolding timeout_from
  timeout_from-Finished fuel c [] e s enough = record {
    sound = s;
    mark = refl;
    kept = e ∙ sym (ap (filter _) e);
    calls = sym (
        ap (λ xs. c.closed ++ map (λ m. pos m.sock) (filter (is_stale_at c.table) xs)) e
        ∙ append-nil c.closed);
    others = λ q a. refl;
  }
  timeout_from-Finished fuel c (n ∷ ns) e s enough =
      loop-Finished fuel [] (n ∷ ns) c s e tt
        (subst (λ xs. restarts (length xs) + length (n ∷ ns) < fuel) (sym e) enough)

  -- The loop of TimeoutConnections, which starts again after each connection that it frees, ends
  -- on a sound cache with fuel for a run of the list after each: the connections that wait with no
  -- write pending and are older than the timeout are off the list and closed, in order, every
  -- other one stays, and the cache is sound.
  pub timeout_connections-Finished :
      (fuel : ℕ) (c : Cache)
      → IsSound c
      → restarts (length c.active) + length c.active < fuel
      → Returns (Finished c) (timeout_connections fuel now timeout c)
  unfolding timeout_connections
  timeout_connections-Finished fuel c s enough = timeout_from-Finished fuel c c.active refl s enough
