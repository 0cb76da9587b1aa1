-- ===== src/MsgQueue/Round/Whole.antt =====
-- The round of Run as a whole.
use Prim.Native.String.{String}
use msg_courier.Prelude.{ℕ, ◌≡◌, sym, subst, false, some, List, [], ◌∷◌, All, All-map}
use msg_courier.Memory.{Returns, Returns-bind, Returns-both, Returns-map}
use msg_courier.Factory.{get_command_handler}
use msg_courier.MsgPool.{Pool}
use msg_courier.MsgPool.Cells.{Cell, ptrs, Absent}
use msg_courier.MsgQueue.{Queue}
use msg_courier.MsgQueue.Kept.{IsKept, process_pending_messages-IsKept}
use msg_courier.MsgQueue.Kept.Leads.{AllPassed-ptrs}
use msg_courier.MsgQueue.Pending.{process_pending_messages}
use msg_courier.MsgQueue.Pending.Connected.{AllSet, process_pending_messages-set}
use msg_courier.MsgQueue.Pending.Queueing.{process_pending_messages_lem}
use msg_courier.MsgQueue.Route.{Router}
use msg_courier.MsgQueue.Round.{process_waiting, flush_by, run_round}
use msg_courier.MsgQueue.Round.Kept.{Passed, process_waiting-Passed}
use msg_courier.Rules.Search.{HasRules}
use msg_courier.Timer.{Timer, is_ready}

module _ {Handler : Type 0} (made : Cell) (id : String) (now : ℕ) (r : Router Handler)
    (mc : Handler) (known : get_command_handler "MC" r.handlers ≡ some mc)
    (rules : All HasRules r.sets) where
  waiting-IsKept :
      (pool : Pool) (ps : List ℕ)
      → IsKept (record { pool = pool; waiting = ps })
      → Absent made.ptr (ptrs pool.messages)
      → AllSet pool.messages
      → Returns IsKept (process_waiting made id now r pool ps)
  unfolding process_waiting
  waiting-IsKept pool [] k a set = k
  waiting-IsKept pool (b ∷ ps) k a set =
      Returns-map (Passed r pool b ps) IsKept (process_waiting made id now r pool (b ∷ ps))
        (process_waiting-Passed made id now r mc known rules pool b ps k a set) (λ q h. h.kept)

  -- With a new message at hand, rules in each set and a handler for MC, where every message has a
  -- connection type and the timer for FlushMessages is not ready, a round of Run returns on a kept
  -- queue and leaves it kept.
  pub run_round-IsKept :
      (q : Queue) (timer : Timer)
      → IsKept q
      → Absent made.ptr (ptrs q.pool.messages)
      → AllSet q.pool.messages
      → is_ready now timer ≡ false
      → Returns (λ s. IsKept s.0) (run_round made id now r q timer)
  unfolding run_round flush_by
  run_round-IsKept q timer k a set early =
      let routable = All-map _ _ q.pool.messages (λ c h e. h) set in
      Returns-bind
        (λ s. IsKept s × (AllSet s.pool.messages × (ptrs s.pool.messages ≡ ptrs q.pool.messages))) _
        (process_pending_messages now q) _
        (Returns-both _ _ (process_pending_messages now q)
          (process_pending_messages-IsKept now q k routable)
          (Returns-both _ _ (process_pending_messages now q)
            (process_pending_messages-set now q set)
            (Returns-map _ _ (process_pending_messages now q)
              (process_pending_messages_lem now q routable)
              (λ s h. AllPassed-ptrs q.pool.messages s.pool.messages h.0))))
        (λ s h.
          Returns-bind IsKept _ (process_waiting made id now r s.pool s.waiting) _
            (waiting-IsKept s.pool s.waiting h.0 (subst (Absent made.ptr) (sym h.1.1) a) h.1.0)
            (λ s' k'. rw early k'))
