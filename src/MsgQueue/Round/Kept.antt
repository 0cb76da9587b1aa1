-- ===== src/MsgQueue/Round/Kept.antt =====
-- A round of Run leaves the queue kept.
use Prim.Native.String.{String}
use msg_courier.Prelude.{
  ℕ, ◌≤◌, ◌≡◌, ◌≢◌, ◌∙◌, inl, inr, Bool, true, false, some, List, [], ◌∷◌, All, Bool-cases, ◌==◌,
  arith,
}
use mathlib.Core.List.{Perm}
use msg_courier.Memory.{Returns, Returns-bind, Returns-both}
use msg_courier.Msg.{Msg, ct_notset, inuse}
use msg_courier.Factory.{get_command_handler}
use msg_courier.MsgPool.{Pool, get_reusable_message}
use msg_courier.MsgPool.Cells.{Cell, find, ptrs, Absent}
use msg_courier.MsgPool.Invariant.{HandedOut, get_reusable_message-HandedOut}
use msg_courier.MsgQueue.{Queue}
use msg_courier.MsgQueue.Kept.{IsKept, get_reusable_message-IsKept}
use msg_courier.MsgQueue.Kept.Leads.{Has}
use msg_courier.MsgQueue.Route.{Router, process_priority_queue}
use msg_courier.MsgQueue.Route.Delivery.{process_priority_queue-Ends}
use msg_courier.Rules.Search.{HasRules}
use msg_courier.MsgQueue.Round.{
  priority_at, take_top, or_spare, wants, is_inbound, settled, process_by_notice, process_found,
  process_waiting,
}
use msg_courier.MsgQueue.Round.Settling.{
  in_use-Absent, Apart, AsBefore, AsBefore-apart, settle-IsKept, settle-others, settle-EndsWith,
  Ends-EndsWith, Ended,
}
use msg_courier.MsgQueue.Round.Top.{
  All-take_top, take_top-IsHighest, take_top-Perm, Distinct-take_top,
}

module _ {Handler : Type 0} where
  -- What is left of a queue on which something waited: one entry is gone, and all the others wait.
  pub record Passed (r : Router Handler) (pool : Pool) (b : ℕ) (ps : List ℕ) (q : Queue)
      : Type 0 where
    pub kept : IsKept q
    pub gone : ℕ
    pub ended : Ended r pool q.pool gone
    pub others : Perm (b ∷ ps) (gone ∷ q.waiting)
    pub highest : All (λ p. priority_at pool.messages p ≤ priority_at pool.messages gone) q.waiting
    pub untouched : AsBefore pool q.pool q.waiting

  module _ (made : Cell) (id : String) (now : ℕ) (r : Router Handler) (mc : Handler)
      (known : get_command_handler "MC" r.handlers ≡ some mc) (rules : All HasRules r.sets) where
    abbrev queue : Pool → List ℕ → Queue
    queue pool ps = record { pool = pool; waiting = ps }

    -- The entry that has been taken is in use, and waits no more.
    taken-Apart :
        (pool : Pool) (p : ℕ) (ps : List ℕ) → IsKept (queue pool (p ∷ ps)) → Apart p (queue pool ps)
    taken-Apart pool p ps k = record {
      waits = k.once.0;
      unfree = in_use-Absent pool.messages p pool.free k.in_use.0 k.sound.unused;
    }

    rest-IsKept :
        (pool : Pool) (p : ℕ) (ps : List ℕ) → IsKept (queue pool (p ∷ ps)) → IsKept (queue pool ps)
    rest-IsKept pool p ps k = record { sound = k.sound; once = k.once.1; in_use = k.in_use.1 }

    -- After the message at p.
    abbrev Done : ℕ → Pool → List ℕ → Pool → Type 0
    Done p pool ps pool' = IsKept (queue pool' ps) × AsBefore pool pool' ps × Ended r pool pool' p

    by_notice-IsKept :
        (b : Bool) (p : ℕ) (m : Msg) (pool : Pool) (ps : List ℕ)
        → IsKept (queue pool (p ∷ ps))
        → Absent made.ptr (ptrs pool.messages)
        → m.connection ≢ ct_notset
        → find p pool.messages ≡ some m
        → Returns (Done p pool ps) (process_by_notice b made id now r p m pool)
    unfolding process_by_notice settled
    by_notice-IsKept false p m pool ps k a set at =
        Returns-bind _ _ (process_priority_queue r m) _
          (process_priority_queue-Ends r mc known rules m set)
          (λ es ends. (
            settle-IsKept p p es (queue pool ps) (rest-IsKept pool p ps k) (taken-Apart pool p ps k)
                (taken-Apart pool p ps k),
            AsBefore-apart pool (settled p p es pool) p p ps (settle-others p p es pool.messages)
                k.once.0 k.once.0,
            let (m', last) = Ends-EndsWith r m es ends in
                record {
                  before = m;
                  was = at;
                  spare = r.spare;
                  events = es;
                  ends = ends;
                  after = m';
                  last = last;
                  is = settle-EndsWith p p es m' m pool.messages at last;
                },
          ))
    by_notice-IsKept true p m pool ps k a set at =
        Returns-bind
          (λ q. HandedOut pool q.0 q.1 × (IsKept (queue q.1 (p ∷ ps)) × Absent q.0 (p ∷ ps))) _
          (get_reusable_message made id now pool) _
          (Returns-both _ _ (get_reusable_message made id now pool)
            (get_reusable_message-HandedOut id now made pool k.sound a)
            (get_reusable_message-IsKept made id now (queue pool (p ∷ ps)) k a))
          (λ q h.
            let spare = or_spare (find q.0 q.1.messages) r.spare in
            Returns-bind _ _ (process_priority_queue (record r { spare = spare }) m) _
              (process_priority_queue-Ends (record r { spare = spare }) mc known rules m set)
              (λ es ends. (
                settle-IsKept p q.0 es (queue q.1 ps) (rest-IsKept q.1 p ps h.1.0)
                    (taken-Apart q.1 p ps h.1.0)
                    (record { waits = h.1.1.1; unfree = h.0.off_stack }),
                AsBefore-apart pool (settled p q.0 es q.1) p q.0 ps
                    (λ x a b. settle-others p q.0 es q.1.messages x a b ∙ h.0.others x b) k.once.0
                    h.1.1.1,
                let (m', last) = Ends-EndsWith (record r { spare = spare }) m es ends in
                    record {
                      before = m;
                      was = at;
                      spare = spare;
                      events = es;
                      ends = ends;
                      after = m';
                      last = last;
                      is =
                          settle-EndsWith p q.0 es m' m q.1.messages (h.0.others p h.1.1.0 ∙ at)
                            last;
                    },
              )))

    connected :
        (p : ℕ) (m : Msg) (cs : List Cell)
        → find p cs ≡ some m
        → All (λ c. c.msg.connection ≢ ct_notset) cs
        → m.connection ≢ ct_notset
    unfolding find
    connected p m [] e h = ground (arith, e)
    connected p m (c ∷ cs) e h = elim (Bool-cases (c.ptr == p)) [
      | inl here ↦ ground (arith, here, e, h.0)
      | inr later ↦ connected p m cs (rw later at e) h.1
    ]

    pub process_waiting-Passed :
        (pool : Pool) (b : ℕ) (ps : List ℕ)
        → IsKept (queue pool (b ∷ ps))
        → Absent made.ptr (ptrs pool.messages)
        → All (λ c. c.msg.connection ≢ ct_notset) pool.messages
        → Returns (Passed r pool b ps) (process_waiting made id now r pool (b ∷ ps))
    unfolding process_waiting process_found
    process_waiting-Passed pool b ps k a set =
        let f = priority_at pool.messages in
        let (top, rest) = take_top f b ps in
        let in_use = All-take_top f (Has inuse pool.messages) b ps k.in_use.0 k.in_use.1 in
        let k' : IsKept (queue pool (top ∷ rest)) = record {
          sound = k.sound;
          once = Distinct-take_top f b ps k.once;
          in_use = in_use;
        } in
        rw (in_use.0.at, process_found)
          (Returns-bind (Done top pool rest) _
            (process_by_notice
              (wants (is_inbound in_use.0.msg.connection) in_use.0.msg.notify_action) made id now r
              top in_use.0.msg pool)
            _
            (by_notice-IsKept _ top in_use.0.msg pool rest k' a
              (connected top in_use.0.msg pool.messages in_use.0.at set) in_use.0.at)
            (λ pool' h. record {
              kept = h.0;
              gone = top;
              ended = h.2;
              others = take_top-Perm f b ps;
              highest = (take_top-IsHighest f b ps).1;
              untouched = h.1;
            }))
