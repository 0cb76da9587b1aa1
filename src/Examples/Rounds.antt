-- ===== src/Examples/Rounds.antt =====
-- A queue on which two messages wait, for Run of msgqueue.cpp.
use msg_courier.Prelude.{refl, false, [], ◌∷◌, arith}
use msg_courier.Memory.{Returns}
use msg_courier.Msg.{inactive, inuse, pending, internal}
use msg_courier.MsgPool.{Pool}
use msg_courier.MsgPool.Cells.{Cell, find}
use msg_courier.MsgQueue.{Queue}
use msg_courier.MsgQueue.Kept.{IsKept}
use msg_courier.MsgQueue.Pending.Connected.{AllSet}
use msg_courier.MsgQueue.Round.{run_round}
use msg_courier.MsgQueue.Round.Whole.{run_round-IsKept}
use msg_courier.Timer.{Timer, is_ready}
use msg_courier.Examples.Messages.{cell, message}
use msg_courier.Examples.Routing.{router, mc_lem, sets_lem}

-- 4 and 7 wait, 7 with the higher priority; 5 is free and 6 is to be queued.
abbrev urgent : Cell
urgent = record { ptr = 7; msg = record (message inuse internal 1000) { priority = 9 } }

abbrev pool : Pool
pool = record {
  messages = cell 4 inuse ∷ (cell 5 inactive ∷ (cell 6 pending ∷ (urgent ∷ [])));
  free = 5 ∷ [];
}

abbrev queue : Queue
queue = record { pool = pool; waiting = 4 ∷ (7 ∷ []) }

abbrev timer : Timer
timer = record { stopped = false; seconds = 1; timestamp = 1031 }

queue-IsKept : IsKept queue
unfolding find
queue-IsKept = record {
  sound = record {
    distinct = (
      (omega arith, (omega arith, (omega arith, tt))),
      ((omega arith, (omega arith, tt)), ((omega arith, tt), (tt, tt))),
    );
    once = (tt, tt);
    unused = (record { msg = message inactive internal 1000; at = refl; unused = refl }, tt);
  };
  once = ((omega arith, tt), (tt, tt));
  in_use = (
    record { msg = message inuse internal 1000; at = refl; is = refl },
    (record { msg = urgent.msg; at = refl; is = refl }, tt),
  );
}

all_set : AllSet pool.messages
all_set = (ground arith, (ground arith, (ground arith, (ground arith, tt))))

run_round-IsKept_example :
    Returns (λ s. IsKept s.0) (run_round (cell 9 inuse) "8" 1030 router queue timer)
unfolding is_ready
run_round-IsKept_example =
    run_round-IsKept (cell 9 inuse) "8" 1030 router 1 mc_lem sets_lem queue timer queue-IsKept
      (omega arith, (omega arith, (omega arith, (omega arith, tt)))) all_set refl
