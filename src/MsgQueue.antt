-- ===== src/MsgQueue.antt =====
-- msgqueue.h and msgqueue.cpp: cMsgQueue, the pool of messages and the priority queue of pointers
-- to those that wait to be processed. Each child holds one function of the loop in Run, which
-- keeps the queue's lock around all of them.
pub mod Flush
pub mod Pending
pub mod Route
pub mod Kept
pub mod Round
use msg_courier.Prelude.{ℕ, List}
use msg_courier.MsgPool.{Pool}

-- m_msgPool and m_priority_queue; the order in which the heap holds its entries is left open.
pub record Queue : Type 0 where
  pub pool : Pool
  pub waiting : List ℕ
