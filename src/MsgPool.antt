-- ===== src/MsgPool.antt =====
-- msgpool.h and msgpool.cpp: cMsgPool owns the messages, m_Messages in order, and keeps a stack of
-- pointers to those that may be used again. A pointer is the number `ptr` of its cell. The lock is
-- held by every caller. The iterator m_it, with GetHead, GetNext and DeleteCurrent, belongs to the loops of
-- the queue, which walk over the rest of the list that it stands before.
pub mod Cells
pub mod Invariant
use Prim.Native.String.{String}
use msg_courier.Prelude.{
  ℕ, zero, Bool, true, false, List, [], ◌∷◌, ◌++◌, Option, none, some, ◌==◌, if◌then◌else◌,
}
use msg_courier.Memory.{Outcome, done, fault, ◌>>=◌}
use msg_courier.Msg.{Msg, State, inactive, inuse, reset_msg}
use msg_courier.Msg.Setters.{set_msg_state}
use Cells.{Cell, find, update}

pub record Pool : Type 0 where
  pub messages : List Cell
  pub free : List ℕ

-- ResetMsg and then SetMsgState, through a pointer that must not dangle.
hand_out : String → ℕ → ℕ → Pool → Outcome (ℕ × Pool)
hand_out id now p pool = elim (find p pool.messages) [
  | none ↦ fault
  | some m ↦ done (
    p,
    record pool {
      messages = update p (λ old. set_msg_state inuse (reset_msg id now old)) pool.messages;
    },
  )
]

pick : Cell → String → ℕ → Pool → List ℕ → Outcome (ℕ × Pool)
unfolding hand_out
pick made id now pool [] =
    hand_out id now made.ptr (record pool { messages = pool.messages ++ made ∷ [] })
pick made id now pool (p ∷ rest) = hand_out id now p (record pool { free = rest })

-- `made` is the new cMsg at its address, which is used where the free stack is empty.
pub get_reusable_message : Cell → String → ℕ → Pool → Outcome (ℕ × Pool)
unfolding pick
get_reusable_message made id now pool = pick made id now pool pool.free

pub return_to_pool : ℕ → Pool → Pool
return_to_pool p pool = record {
  messages = update p (set_msg_state inactive) pool.messages;
  free = p ∷ pool.free;
}

unfoldable pub flush_free_stack : Pool → Pool
flush_free_stack pool = record pool { free = [] }
