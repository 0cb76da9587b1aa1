-- ===== src/MsgQueue/Pending.antt =====
-- ProcessPendingMessages of msgqueue.cpp: dispatched messages go on the priority queue, and messages
-- that could not be delivered are dropped or dispatched again later.
pub mod Delay
pub mod Retry
pub mod Queueing
pub mod Connected
use msg_courier.Prelude.{
  ℕ, ◌+◌, ◌-◌, Bool, true, false, List, [], ◌∷◌, ltb, ◌==◌, if◌then◌else◌, is_minus_one,
}
use msg_courier.Memory.{Outcome, done, throws, fault, ◌>>=◌}
use msg_courier.Msg.{
  Msg, State, ConnectionType, ct_notset, inactive, pending, inuse, undelivered, delivered,
  processed, markforreuse,
}
use msg_courier.Msg.Setters.{
  set_msg_state, set_send_retry_count, set_send_retry_delay, set_msg_last_retry_ts,
}
use msg_courier.MsgPool.{Pool}
use msg_courier.MsgPool.Cells.{Cell}
use msg_courier.MsgQueue.{Queue}

-- MAX_MSG_RETRY
abbrev pub max_msg_retry : ℕ
max_msg_retry = 10

-- The message is set for a later time: lastAttempt + delay > curtime.
pub is_delayed : ℕ → Msg → Bool
is_delayed now m = if m.retry_count == 0 then false else ltb now (m.last_retry_ts + m.retry_delay)

-- The last branch, for a message with no socket to answer to. `now` is the time of each time(0).
pub retry : ℕ → Msg → Msg
unfolding is_delayed
retry now m =
    if is_delayed now m
    then m
    else if m.last_retry_ts == 0
    then set_msg_state pending (set_send_retry_count 1 (set_msg_last_retry_ts now m))
    else if ltb (max_msg_retry - 1) m.retry_count
    then set_msg_state markforreuse m
    else set_msg_state pending (
        set_send_retry_delay (m.retry_delay + m.retry_delay)
          (set_send_retry_count (m.retry_count + 1) (set_msg_last_retry_ts now m)))

pub is_unset : ConnectionType → Bool
is_unset ct_notset = true
is_unset _ = false

-- One round of the loop: the message after it, and whether it is pushed on the priority queue. A
-- pending message without a connection type fails an assertion, which throws.
pub process_pending : ℕ → Msg → State → Outcome (Msg × Bool)
unfolding retry is_unset
process_pending now m pending =
    if is_unset m.connection then throws else done (set_msg_state inuse m, true)
process_pending now m undelivered =
    if is_minus_one m.tcp_socket
    then done (retry now m, false)
    else done (set_msg_state markforreuse m, false)
process_pending now m _ = done (m, false)

push_if : Bool → ℕ → List ℕ → List ℕ
push_if true p waiting = p ∷ waiting
push_if false p waiting = waiting

pub pending_loop : ℕ → List Cell → List ℕ → Outcome (List Cell × List ℕ)
unfolding process_pending push_if
pending_loop now [] waiting = done ([], waiting)
pending_loop now (c ∷ cs) waiting = do
  (m, pushed) ← process_pending now c.msg c.msg.state
  (cs', waiting') ← pending_loop now cs (push_if pushed c.ptr waiting)
  done (record c { msg = m } ∷ cs', waiting')

pub process_pending_messages : ℕ → Queue → Outcome Queue
unfolding pending_loop
process_pending_messages now q = do
  (messages, waiting) ← pending_loop now q.pool.messages q.waiting
  done (record { pool = record { messages = messages; free = q.pool.free }; waiting = waiting })
