-- ===== src/Examples/Messages.antt =====
-- A pool of three messages, for msgpool.cpp and the queue's loops over it in msgqueue.cpp.
use msg_courier.Prelude.{
  ℕ, zero, suc, ◌≡◌, ◌≢◌, ◌≤◌, ◌+◌, refl, inl, inr, none, true, List, [], ◌∷◌, ◌++◌, arith, All,
  minus_one, pos,
}
use msg_courier.Memory.{Returns, fault}
use msg_courier.Buffer.{Buffer}
use msg_courier.Msg.{
  Msg, State, inactive, pending, undelivered, delivered, inuse, ConnectionType, internal, ib_udp,
  unknown, format_notset, reply_none, notify_no, nowhere, mid,
}
use msg_courier.MsgPool.{Pool, get_reusable_message}
use msg_courier.MsgPool.Cells.{Cell, Absent, find, ptrs, Distinct}
use msg_courier.MsgPool.Invariant.{IsSound, HandedOut, get_reusable_message-HandedOut}
use msg_courier.MsgQueue.{Queue}
use msg_courier.MsgQueue.Kept.{
  IsKept, process_pending_messages-IsKept, get_reusable_message-IsKept, flush_messages-IsKept,
}
use msg_courier.MsgQueue.Flush.{
  flush_messages, visit, delete, flushed_state, is_inactive, is_marked, is_old,
}
use msg_courier.MsgQueue.Flush.Runs.{flush_messages-fault}
use msg_courier.MsgQueue.Pending.{process_pending_messages}
use msg_courier.MsgQueue.Pending.Delay.{IsRetrying}
use msg_courier.MsgQueue.Pending.Retry.{LetGo, attempts, attempts-ends, Spaced}
use msg_courier.MsgQueue.Pending.Queueing.{AllPassed, all_queued, process_pending_messages_lem}

abbrev blank : Buffer
blank = record { block = none; size = 0; tail = 0; min_alloc = 32; mid_alloc = 256 }

abbrev pub message : State → ConnectionType → ℕ → Msg
message state connection used = record {
  tcp_socket = minus_one;
  udp_socket = minus_one;
  retry_count = 0;
  retry_delay = 1;
  msg_id = "7";
  connection = connection;
  protocol = unknown;
  format = format_notset;
  response_code = 0;
  state = state;
  command = "IM.SEND";
  to = "";
  from = "";
  subject = "";
  options = "";
  reply_action = reply_none;
  notify_action = notify_no;
  status_line = "";
  content_type = "";
  content_length = pos 0;
  buffer = blank;
  raw_buffer = blank;
  payload = nowhere;
  header_size = 0;
  crc32 = "";
  source_ip = "";
  source_port = minus_one;
  priority = mid;
  arrival_port = 0;
  in_use_ts = used;
  last_retry_ts = 0;
  cloned = true;
  service = none;
  keep_alive = true;
  header_extract = record { params = []; header = [] };
}

abbrev pub cell : ℕ → State → Cell
cell p state = record { ptr = p; msg = message state internal 1000 }

-- 5 is free, 6 waits to be queued and 7 has been delivered.
abbrev three : List Cell
three = cell 5 inactive ∷ cell 6 pending ∷ cell 7 delivered ∷ []

abbrev pool : Pool
pool = record { messages = three; free = 5 ∷ [] }

three-Distinct : Distinct (ptrs three)
three-Distinct = ((omega arith, (omega arith, tt)), ((omega arith, tt), (tt, tt)))

pool-IsSound : IsSound pool
pool-IsSound = record {
  distinct = three-Distinct;
  once = (tt, tt);
  unused = (
    record { msg = message inactive internal 1000; at = unfold find in refl; unused = refl },
    tt,
  );
}

get_reusable_message-HandedOut_example :
    Returns (λ r. HandedOut pool r.0 r.1) (get_reusable_message (cell 9 inuse) "8" 1001 pool)
get_reusable_message-HandedOut_example =
    get_reusable_message-HandedOut "8" 1001 (cell 9 inuse) pool pool-IsSound
      (omega arith, (omega arith, (omega arith, tt)))

fresh_lem : All (λ c. visit 1030 c.msg ≢ delete) three
unfolding visit flushed_state is_inactive is_marked is_old
fresh_lem = (ground arith, (ground arith, (ground arith, tt)))

-- At 1061 the free message is stale, and it stands before one other.
flush_messages-fault_example :
    flush_messages 1061
      (record { messages = [] ++ cell 5 inactive ∷ cell 6 pending ∷ []; free = 5 ∷ [] })
    ≡ fault
unfolding visit flushed_state is_inactive is_marked is_old
flush_messages-fault_example =
    flush_messages-fault 1061 [] (cell 5 inactive) (cell 6 pending ∷ []) (5 ∷ []) tt refl
      (inr (cell 6 pending, refl))

abbrev lost : Msg
lost = message undelivered internal 1000

lost-IsRetrying : IsRetrying lost
lost-IsRetrying = inl (refl, refl, refl)

-- So many passes, each 600 seconds after the one before.
abbrev passes : ℕ → ℕ → List ℕ
passes zero now = []
passes (suc n) now = now ∷ passes n (now + 600)

passes-Spaced : (n last now : ℕ) → last + 512 ≤ now → Spaced last (passes n now)
passes-Spaced zero last now h = tt
passes-Spaced (suc n) last now h = (h, passes-Spaced n now (now + 600) (omega arith))

attempts-ends_example : Returns (LetGo lost) (attempts (passes 21 1000) lost)
attempts-ends_example =
    attempts-ends (passes 21 1000) lost (passes-Spaced 21 0 1000 (omega arith)) (omega arith) refl
      (ground arith) lost-IsRetrying

abbrev queue : Queue
queue = record { pool = pool; waiting = [] }

process_pending_messages_example :
    Returns
      (λ r.
        AllPassed three r.pool.messages
        × (r.waiting ≡ all_queued three [])
        × (r.pool.free ≡ 5 ∷ []))
      (process_pending_messages 1030 queue)
process_pending_messages_example =
    process_pending_messages_lem 1030 queue
      (λ _. ground arith, (λ _. ground arith, (λ _. ground arith, tt)))

abbrev request : Msg
request = record lost { connection = ib_udp }

-- A queue on which a message in use waits
abbrev busy : Queue
busy = record {
  pool = record { messages = cell 5 inactive ∷ cell 6 pending ∷ cell 7 inuse ∷ []; free = 5 ∷ [] };
  waiting = 7 ∷ [];
}

busy-IsKept : IsKept busy
unfolding find
busy-IsKept = record {
  sound = record {
    distinct = three-Distinct;
    once = (tt, tt);
    unused = (record { msg = message inactive internal 1000; at = refl; unused = refl }, tt);
  };
  once = (tt, tt);
  in_use = (record { msg = message inuse internal 1000; at = refl; is = refl }, tt);
}

process_pending_messages-IsKept_example : Returns IsKept (process_pending_messages 1030 busy)
process_pending_messages-IsKept_example =
    process_pending_messages-IsKept 1030 busy busy-IsKept
      (λ _. ground arith, (λ _. ground arith, (λ _. ground arith, tt)))

get_reusable_message-IsKept_example :
    Returns
      (λ r. IsKept (record busy { pool = r.1 }) × Absent r.0 (7 ∷ []))
      (get_reusable_message (cell 9 inuse) "8" 1001 busy.pool)
get_reusable_message-IsKept_example =
    get_reusable_message-IsKept (cell 9 inuse) "8" 1001 busy busy-IsKept
      (omega arith, (omega arith, (omega arith, tt)))

busy_lem : All (λ c. visit 1030 c.msg ≢ delete) busy.pool.messages
unfolding visit flushed_state is_inactive is_marked is_old
busy_lem = (ground arith, (ground arith, (ground arith, tt)))

flush_messages-IsKept_example :
    Returns (λ p. IsKept (record busy { pool = p })) (flush_messages 1030 busy.pool)
flush_messages-IsKept_example = flush_messages-IsKept 1030 busy busy-IsKept busy_lem
