-- ===== src/MsgQueue/Flush.antt =====
-- FlushMessages of msgqueue.cpp, with DeleteCurrent and GetNext of msgpool.cpp: messages that are
-- done with go back to the free stack, and those unused for more than a minute are deleted.
pub mod Free
pub mod Runs
use msg_courier.Prelude.{ℕ, ◌+◌, Bool, true, false, ◌&&◌, List, [], ◌∷◌, ltb, if◌then◌else◌}
use msg_courier.Memory.{Outcome, done, fault, ◌>>=◌}
use msg_courier.Msg.{
  Msg, State, inactive, pending, inuse, undelivered, delivered, processed, markforreuse,
}
use msg_courier.Msg.Setters.{set_msg_state}
use msg_courier.MsgPool.{Pool, flush_free_stack}
use msg_courier.MsgPool.Cells.{Cell}

-- The switch on the state. The counters feed the log only.
unfoldable pub flushed_state : State → State
flushed_state inactive = markforreuse
flushed_state delivered = markforreuse
flushed_state processed = markforreuse
flushed_state s = s

unfoldable pub is_inactive : State → Bool
is_inactive inactive = true
is_inactive _ = false

unfoldable pub is_marked : State → Bool
is_marked markforreuse = true
is_marked _ = false

-- currentTime - GetMsgInUseTS() > 60, regrouped.
unfoldable pub is_old : ℕ → Msg → Bool
is_old now m = ltb (m.in_use_ts + 60) now

-- What becomes of a message: it stays, it goes on the free stack as ReturnToPool leaves it, or it
-- is deleted.
pub data Visit : Type 0 where
  keep : Msg → Visit
  reuse : Msg → Visit
  delete : Visit

unfoldable pub visit : ℕ → Msg → Visit
unfolding flushed_state is_inactive is_marked is_old
visit now m =
    let marked = set_msg_state (flushed_state m.state) m in
    if is_inactive m.state && is_old now m
    then delete
    else if is_marked marked.state
    then reuse (set_msg_state inactive marked)
    else keep marked

-- Where the loop stands: before a message; after erase, with the m_it++ of DeleteCurrent and that
-- of GetNext to come; or with that of GetNext alone.
pub data Mode : Type 0 where
  visiting in_delete in_next : Mode

abbrev pub before : Cell → Outcome (List Cell × List ℕ) → Outcome (List Cell × List ℕ)
before c (done (cs, free)) = done (c ∷ cs, free)
before c o = o

-- The do-while over the rest of the list, with the free stack.
pub flush_loop : ℕ → Mode → List Cell → List ℕ → Outcome (List Cell × List ℕ)
flush_loop now visiting [] free = done ([], free)
flush_loop now visiting (c ∷ cs) free = elim (visit now c.msg) [
  | keep m ↦ before (record c { msg = m }) (flush_loop now visiting cs free)
  | reuse m ↦ before (record c { msg = m }) (flush_loop now visiting cs (c.ptr ∷ free))
  | delete ↦ flush_loop now in_delete cs free
]
flush_loop now in_delete [] free = fault
flush_loop now in_delete (c ∷ cs) free = before c (flush_loop now in_next cs free)
flush_loop now in_next [] free = fault
flush_loop now in_next (c ∷ cs) free = before c (flush_loop now visiting cs free)

pub flush_messages : ℕ → Pool → Outcome Pool
unfolding flush_loop
flush_messages now pool = do
  (messages, free) ← flush_loop now visiting pool.messages (flush_free_stack pool).free
  done (record { messages = messages; free = free })
