-- ===== src/ConnectionQueue/Rounds.antt =====
-- A round of Run keeps what the next one relies on.
use msg_courier.Prelude.{
  ℕ, ◌+◌, ◌≤◌, ◌<◌, ◌≡◌, refl, sym, ap, ◌∙◌, subst, ℤ, Bool, not, Option, none, some, List, [],
  ◌++◌, map, arith, length, take, length-take, length-append, length-filter_le, drop-all, inl, inr,
  Bool-cases, length-map, append-nil, All-append, All-append_right,
}
use msg_courier.Memory.{Malloc, Allocates, Returns, Returns-bind}
use msg_courier.Timer
use msg_courier.Timer.{Timer}
use msg_courier.ConnectionCache.{finish, Cache}
use msg_courier.ConnectionCache.Walk.{place_of, timeout_connections}
use msg_courier.ConnectionCache.Nodes.{socks, Absent-filter}
use msg_courier.ConnectionCache.Timeout.{
  restarts, is_stale_at, Finished, timeout_connections-Finished,
}
use msg_courier.ConnectionCache.Passes.{Passed}
use msg_courier.ConnectionQueue.{Handler, process_inbound_tasks}
use msg_courier.ConnectionQueue.Inbound.{IsTame, Tended, is_closed_at}
use msg_courier.ConnectionQueue.Tasks.{process_inbound_tasks-Tended}
use msg_courier.ConnectionQueue.Round.{
  ConnQueue, accept_waiting, prepare_connections, expired, expire, fd_setsize, check_connections,
  with_tasks, run_tasks, run_round,
}
use msg_courier.ConnectionQueue.Ready.{
  AreNew, AreNew-weaken, Accepted, waiting, InSet, InSet-filter, InSet-left, IsReady,
  prepare_connections-Passed, accept_waiting-Accepted,
}

abbrev Expired : ConnQueue → Option ConnQueue → Type 0
Expired q none = ⊥
Expired q (some q') =
    IsReady q' × (length q'.cache.active ≤ length q.cache.active) × (q'.pre_index ≡ q.pre_index)

-- After a round nothing waits, and the next pass starts at the head of the list.
abbrev pub Rested : Option (List ℕ × ConnQueue) → Type 0
Rested none = ⊥
Rested (some (ss, q)) = IsReady q × (q.pre_index ≡ 0)

module _ (malloc : Malloc) (works : Allocates malloc) (now : ℕ) where
  timed_out-IsReady :
      (q : ConnQueue) (o : Option Cache)
      → IsReady q
      → Finished now q.timeout q.cache o
      → Expired q (expired o now q)
  unfolding expired
  timed_out-IsReady q none r t = absurd t
  timed_out-IsReady q (some c) r t =
      let fewer =
        length-filter_le (λ n. not (is_stale_at now q.timeout q.cache.table n)) q.cache.active in
      let le = ap length t.kept in
      (
        record {
          sound = t.sound;
          at_start = t.mark ∙ r.at_start;
          within = r.within;
          fits = omega (arith, le, fewer, r.fits);
          in_set =
              subst (λ ns. InSet (socks ns ++ map (λ w. w.sock) (waiting q))) (sym t.kept)
                (All-append _ _ _ (InSet-filter _ q.cache.active (InSet-left _ _ r.in_set))
                  (All-append_right _ (socks q.cache.active) _ r.in_set));
          new =
              subst (λ xs. AreNew (socks xs) (waiting q)) (sym t.kept)
                (AreNew-weaken (socks q.cache.active) _ (waiting q)
                  (λ s. Absent-filter (λ n. n.sock) _ s q.cache.active) r.new);
        },
        omega (arith, le, fewer),
        refl,
      )

  expire-IsReady :
      (fuel : ℕ) (q : ConnQueue)
      → IsReady q
      → restarts (length q.cache.active) + length q.cache.active < fuel
      → Returns (Expired q) (expire fuel now q)
  unfolding expire
  expire-IsReady fuel q r enough = elim (Bool-cases (Timer.is_ready now q.timer)) [
    | inl due ↦
        rw (due, expire)
          (Returns-bind (Finished now q.timeout q.cache) (Expired q)
            (timeout_connections fuel now q.timeout q.cache) _
            (timeout_connections-Finished now q.timeout fuel q.cache r.sound enough)
            (λ o t. timed_out-IsReady q o r t))
    | inr early ↦ rw (early, expire) (r, omega arith, refl)
  ]

  accepted_size :
      (q q' : ConnQueue)
      → IsReady q
      → socks q'.cache.active ≡ socks q.cache.active ++ map (λ w. w.sock) (waiting q)
      → length q'.cache.active ≡ length q.cache.active + q.pre_index
  accepted_size q q' r listed = omega (
    arith,
    ap length listed,
    length-append (socks q.cache.active) (map (λ w. w.sock) (waiting q)),
    length-map q'.cache.active (λ n. n.sock),
    length-map q.cache.active (λ n. n.sock),
    length-map (waiting q) (λ w. w.sock),
    length-take q.pre_index q.pre_queue r.within,
  )

  module _ (select : List ℕ → ℤ → Bool) (handle : Handler) (tame : IsTame handle) where
    rested :
        (q : ConnQueue) (c : Cache) (isset : ℤ → Bool) (o : Option (List ℕ × Cache))
        → q.pre_index ≡ 0
        → c.marker ≡ finish
        → length c.active ≤ fd_setsize
        → InSet (socks c.active)
        → Tended handle tame isset c [] c.active o
        → Rested (with_tasks q o)
    rested q c isset none none_waits at_start few in_set t = absurd t
    rested q c isset (some (ss, c')) none_waits at_start few in_set (visited, left, sound, mark) = (
      record {
        sound = sound;
        at_start = mark ∙ at_start;
        within = omega arith;
        fits = omega (
          arith,
          none_waits,
          ap length left,
          length-filter_le (λ n. not (is_closed_at handle tame isset c.table n)) c.active,
        );
        in_set =
            subst (λ n. InSet (socks c'.active ++ map (λ w. w.sock) (take n q.pre_queue)))
              (sym none_waits)
              (subst (λ ss. InSet ss) (sym (append-nil (socks c'.active)))
                (subst (λ ns. InSet (socks ns)) (sym left) (InSet-filter _ c.active in_set)));
        new = subst (λ n. AreNew (socks c'.active) (take n q.pre_queue)) (sym none_waits) tt;
      },
      none_waits,
    )

    run_tasks-Rested :
        (fuel : ℕ) (q : ConnQueue)
        → IsReady q
        → length q.cache.active + q.pre_index < fuel
        → Returns Rested (run_tasks fuel malloc now select handle (some q))
    unfolding run_tasks
    run_tasks-Rested fuel q r enough =
        Returns-bind (λ q'. Accepted q.cache (waiting q) q'.cache × (q'.pre_index ≡ 0)) Rested
          (accept_waiting malloc now q) _ (accept_waiting-Accepted malloc works now q r)
          λ q₁ ((sound, mark, listed), none_waits).
            let size = accepted_size q q₁ r listed in
            let few : length q₁.cache.active ≤ fd_setsize = omega (arith, size, r.fits) in
            let in_set = subst (λ ss. InSet ss) (sym listed) r.in_set in
            Returns-bind (λ x. Passed q₁.cache fd_setsize q₁.cache.active x.0 x.1) Rested
              (prepare_connections q₁.cache) _
              (prepare_connections-Passed q₁.cache sound (mark ∙ r.at_start) in_set)
              λ (pass, c) p.
                Returns-bind (Tended handle tame (check_connections select pass) c [] c.active)
                  Rested (process_inbound_tasks fuel handle (check_connections select pass) c) _
                  (process_inbound_tasks-Tended handle tame (check_connections select pass) fuel c
                    p.sound' (omega (arith, ap length p.active, size, enough)))
                  (λ o t.
                    rested q₁ c (check_connections select pass) o none_waits
                      (p.marker ∙ ap place_of (drop-all fd_setsize q₁.cache.active few))
                      (omega (arith, ap length p.active, few))
                      (subst (λ ns. InSet (socks ns)) (sym p.active) in_set) t)

    resume :
        (fuel : ℕ) (q : ConnQueue) (o : Option ConnQueue)
        → restarts (length q.cache.active) + length q.cache.active + q.pre_index < fuel
        → Expired q o
        → Returns Rested (run_tasks fuel malloc now select handle o)
    resume fuel q none enough e = absurd e
    resume fuel q (some q') enough (r, fewer, same) =
        run_tasks-Rested fuel q' r (omega (arith, enough, fewer, same))

    -- With memory left and enough fuel, where the handler leaves what the cache needs of a record,
    -- a round of Run up to the inbound tasks returns on a queue that is ready: no iterator is used
    -- after its node is gone, nothing is written behind the fd_set, and afterwards the queue is
    -- ready for the next round and nothing waits to be added. A queue is ready where its cache is
    -- sound and a pass begins at the head of the list, the index is within the vector, the sockets
    -- that wait are new and within bounds, there are at most FD_SETSIZE sockets with those that
    -- wait, and all are below FD_SETSIZE.
    pub run_round-Rested :
        (fuel : ℕ) (q : ConnQueue)
        → IsReady q
        → restarts (length q.cache.active) + length q.cache.active + q.pre_index < fuel
        → Returns Rested (run_round fuel malloc now select handle q)
    unfolding run_round
    run_round-Rested fuel q r enough =
        Returns-bind (Expired q) Rested (expire fuel now q) _
          (expire-IsReady fuel q r (omega arith)) (λ o e. resume fuel q o enough e)
