-- ===== src/MsgQueue/Round.antt =====
-- One round of Run of msgqueue.cpp, without the database: the three functions of the queue, in the
-- order in which Run calls them, on the pool of messages.
pub mod Top
pub mod Settling
pub mod Kept
pub mod Whole
use Prim.Native.String.{String}
use msg_courier.Prelude.{
  ℕ, Bool, true, false, List, [], ◌∷◌, Option, none, some, ltb, if◌then◌else◌,
}
use msg_courier.Memory.{Outcome, done, fault, ◌>>=◌}
use msg_courier.Msg.{
  Msg, ConnectionType, ct_notset, ib_udp, ob_udp, ib_tcp, ob_tcp, internal, NotifyAction,
  notify_yes, notify_no,
}
use msg_courier.MsgPool.{Pool, get_reusable_message}
use msg_courier.MsgPool.Cells.{Cell, find, update}
use msg_courier.MsgQueue.{Queue}
use msg_courier.MsgQueue.Flush.{flush_messages}
use msg_courier.MsgQueue.Pending.{process_pending_messages}
use msg_courier.MsgQueue.Route.{Router, Event, posts, hands, sends, leaves, process_priority_queue}
use msg_courier.Timer.{Timer, is_ready, reset_timer}

-- GetMsgPriority of a message at an address.
unfoldable pub priority_at : List Cell → ℕ → ℕ
unfolding find
priority_at cs p = elim (find p cs) [ none ↦ 0 | some m ↦ m.priority ]

-- top and pop, by cMsgPriorityComp: an entry below which no other has a priority that is greater,
-- and the others. `best` is the first entry.
abbrev pub greater : (ℕ → ℕ) → ℕ → ℕ → ℕ
greater f b p = if ltb (f b) (f p) then p else b

abbrev pub lesser : (ℕ → ℕ) → ℕ → ℕ → ℕ
lesser f b p = if ltb (f b) (f p) then b else p

unfoldable pub take_top : (ℕ → ℕ) → ℕ → List ℕ → ℕ × List ℕ
take_top f best [] = (best, [])
take_top f best (p ∷ ps) =
    let (top, rest) = take_top f (greater f best p) ps in (top, lesser f best p ∷ rest)

abbrev pub is_inbound : ConnectionType → Bool
is_inbound ib_udp = true
is_inbound ib_tcp = true
is_inbound ct_notset = false
is_inbound ob_udp = false
is_inbound ob_tcp = false
is_inbound internal = false

abbrev pub wants : Bool → NotifyAction → Bool
wants true notify_yes = true
wants true notify_no = false
wants false n = false

abbrev pub or_spare : Option Msg → Msg → Msg
or_spare none spare = spare
or_spare (some m) spare = m

-- FlushMessages once in a second.
unfoldable pub flush_by : Bool → ℕ → Queue → Timer → Outcome (Queue × Timer)
unfolding reset_timer
flush_by true now q timer = do
  pool ← flush_messages now q.pool
  done (record q { pool = pool }, reset_timer now timer)
flush_by false now q timer = done (q, timer)

module _ {Handler : Type 0} where
  -- What the memory holds after a call: the message at `p`, and at `s` the notification.
  unfoldable pub settle : ℕ → ℕ → List (Event Handler) → List Cell → List Cell
  unfolding update
  settle p s [] cs = cs
  settle p s (posts n ∷ es) cs = settle p s es (update s (λ old. n) cs)
  settle p s (hands h m ∷ es) cs = settle p s es (update p (λ old. m) cs)
  settle p s (sends m ∷ es) cs = settle p s es (update p (λ old. m) cs)
  settle p s (leaves m ∷ es) cs = settle p s es (update p (λ old. m) cs)

  settled : ℕ → ℕ → List (Event Handler) → Pool → Pool
  unfolding settle
  settled p s es pool = record pool { messages = settle p s es pool.messages }

  -- ProcessPriorityQueue of the message at `p`. The message for a notification comes from the pool;
  -- without one nothing is posted.
  unfoldable pub process_by_notice :
      Bool → Cell → String → ℕ → Router Handler → ℕ → Msg → Pool → Outcome Pool
  unfolding settled find
  process_by_notice true made id now r p m pool = do
    (s, pool') ← get_reusable_message made id now pool
    events ←
        process_priority_queue (record r { spare = or_spare (find s pool'.messages) r.spare }) m
    done (settled p s events pool')
  process_by_notice false made id now r p m pool = do
    events ← process_priority_queue r m
    done (settled p p events pool)

  unfoldable pub process_found :
      Cell → String → ℕ → Router Handler → ℕ → Option Msg → Pool → Outcome Pool
  unfolding process_by_notice
  process_found made id now r p none pool = fault
  process_found made id now r p (some m) pool =
      process_by_notice (wants (is_inbound m.connection) m.notify_action) made id now r p m pool

  -- The entry with the highest priority leaves the queue, if there is one.
  unfoldable pub process_waiting :
      Cell → String → ℕ → Router Handler → Pool → List ℕ → Outcome Queue
  unfolding take_top priority_at process_found find
  process_waiting made id now r pool [] = done (record { pool = pool; waiting = [] })
  process_waiting made id now r pool (p ∷ ps) =
      let (top, rest) = take_top (priority_at pool.messages) p ps in
      do
        pool' ← process_found made id now r top (find top pool.messages) pool
        done (record { pool = pool'; waiting = rest })

  unfoldable pub run_round :
      Cell → String → ℕ → Router Handler → Queue → Timer → Outcome (Queue × Timer)
  unfolding process_waiting flush_by is_ready
  run_round made id now r q timer = do
    q₁ ← process_pending_messages now q
    q₂ ← process_waiting made id now r q₁.pool q₁.waiting
    flush_by (is_ready now timer) now q₂ timer
