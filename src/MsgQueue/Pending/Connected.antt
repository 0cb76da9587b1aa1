-- ===== src/MsgQueue/Pending/Connected.antt =====
-- ProcessPendingMessages leaves the types of the connections as they were.
use msg_courier.Prelude.{
  ℕ, ◌≡◌, ◌≢◌, sym, ◌∙◌, inl, inr, Bool-cases, List, [], ◌∷◌, All, arith, is_minus_one,
}
use msg_courier.Memory.{Returns, Returns-bind}
use msg_courier.Msg.{
  Msg, State, ct_notset, inactive, pending, inuse, undelivered, delivered, processed, markforreuse,
}
use msg_courier.MsgPool.Cells.{Cell}
use msg_courier.MsgQueue.{Queue}
use msg_courier.MsgQueue.Pending.{
  process_pending, pending_loop, process_pending_messages, push_if, retry,
}
use msg_courier.MsgQueue.Pending.Queueing.{set_lem}

abbrev pub AllSet : List Cell → Type 0
AllSet cs = All (λ c. c.msg.connection ≢ ct_notset) cs

module _ (now : ℕ) where
  retry-connection : (m : Msg) → (retry now m).connection ≡ m.connection
  unfolding retry
  retry-connection m = ground arith

  one-set :
      (m : Msg) (s : State)
      → m.connection ≢ ct_notset
      → Returns (λ r. r.0.connection ≢ ct_notset) (process_pending now m s)
  unfolding process_pending
  one-set m pending h = rw (set_lem m.connection h) h
  one-set m undelivered h = elim (Bool-cases (is_minus_one m.tcp_socket)) [
    | inl no_socket ↦ rw no_socket (λ e. h (sym (retry-connection m) ∙ e))
    | inr socket ↦ rw socket h
  ]
  one-set m inactive h = h
  one-set m inuse h = h
  one-set m delivered h = h
  one-set m processed h = h
  one-set m markforreuse h = h

  loop-set :
      (cs : List Cell) (waiting : List ℕ)
      → AllSet cs
      → Returns (λ r. AllSet r.0) (pending_loop now cs waiting)
  unfolding pending_loop
  loop-set [] waiting h = tt
  loop-set (c ∷ cs) waiting h =
      Returns-bind _ _ (process_pending now c.msg c.msg.state) _ (one-set c.msg c.msg.state h.0)
        (λ r one.
          Returns-bind _ _ (pending_loop now cs (push_if r.1 c.ptr waiting)) _
            (loop-set cs (push_if r.1 c.ptr waiting) h.1) (λ rest all. (one, all)))

  pub process_pending_messages-set :
      (q : Queue)
      → AllSet q.pool.messages
      → Returns (λ r. AllSet r.pool.messages) (process_pending_messages now q)
  unfolding process_pending_messages
  process_pending_messages-set q h =
      Returns-bind _ _ (pending_loop now q.pool.messages q.waiting) _
        (loop-set q.pool.messages q.waiting h) (λ r all. all)
