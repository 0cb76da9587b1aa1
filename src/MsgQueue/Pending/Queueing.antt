-- ===== src/MsgQueue/Pending/Queueing.antt =====
-- What ProcessPendingMessages puts on the priority queue.
use Prim.Native.String.{String}
use msg_courier.Prelude.{
  ℕ, ◌≡◌, ◌≢◌, refl, ◌∙◌, ap, false, List, [], ◌∷◌, arith, All, ◌⊎◌, inl, inr, Bool-cases,
  is_minus_one,
}
use msg_courier.Memory.{Returns, Returns-bind}
use msg_courier.Msg.{
  Msg, State, ConnectionType, ct_notset, inactive, pending, inuse, undelivered, delivered,
  processed, markforreuse, dispatch_msg, ib_udp, ob_udp, ib_tcp, ob_tcp, internal,
}
use msg_courier.MsgPool.Cells.{Cell}
use msg_courier.MsgQueue.{Queue}
use msg_courier.MsgQueue.Pending.{
  process_pending, pending_loop, process_pending_messages, is_unset, push_if, retry,
}

-- A pending message has a connection type, as DispatchMsg gives it.
abbrev pub IsRoutable : Msg → Type 0
IsRoutable m = m.state ≡ pending → m.connection ≢ ct_notset

-- The pending ones, the last first, before what waits already.
unfoldable pub queued : State → ℕ → List ℕ → List ℕ
queued pending p waiting = p ∷ waiting
queued _ p waiting = waiting

unfoldable pub all_queued : List Cell → List ℕ → List ℕ
unfolding queued
all_queued [] waiting = waiting
all_queued (c ∷ cs) waiting = all_queued cs (queued c.msg.state c.ptr waiting)

-- What one round makes of the state.
abbrev pub Passed : State → State → Type 0
Passed pending s = s ≡ inuse
Passed undelivered s = (s ≡ undelivered) ⊎ (s ≡ pending) ⊎ (s ≡ markforreuse)
Passed old s = s ≡ old

-- The same messages at the same addresses.
abbrev pub AllPassed : List Cell → List Cell → Type 0
AllPassed [] ds = ds ≡ []
AllPassed (c ∷ cs) [] = ⊥
AllPassed (c ∷ cs) (d ∷ ds) = (d.ptr ≡ c.ptr) × Passed c.msg.state d.msg.state × AllPassed cs ds

connected : ConnectionType → String → Msg → Msg
connected ct sender m = dispatch_msg sender (record m { connection = ct })

connected_lem :
    (ct : ConnectionType) (sender : String) (m : Msg)
    → (connected ct sender m).connection ≢ ct_notset
unfolding connected dispatch_msg
connected_lem ct_notset sender m = ground arith
connected_lem ib_udp sender m = ground arith
connected_lem ob_udp sender m = ground arith
connected_lem ib_tcp sender m = ground arith
connected_lem ob_tcp sender m = ground arith
connected_lem internal sender m = ground arith

-- DispatchMsg makes a message routable.
pub dispatch_msg-IsRoutable : (sender : String) (m : Msg) → IsRoutable (dispatch_msg sender m)
unfolding connected
dispatch_msg-IsRoutable sender m set = connected_lem m.connection sender m

pub set_lem : (ct : ConnectionType) → ct ≢ ct_notset → is_unset ct ≡ false
unfolding is_unset
set_lem ct_notset h = ground (arith, h refl)
set_lem ib_udp h = refl
set_lem ob_udp h = refl
set_lem ib_tcp h = refl
set_lem ob_tcp h = refl
set_lem internal h = refl

-- One round, by the state of the message.
module _ (now : ℕ) where
  retry_lem : (m : Msg) → m.state ≡ undelivered → Passed undelivered (retry now m).state
  unfolding retry
  retry_lem m e = ground (arith, e)

  round_lem :
      (m : Msg) (s : State) (p : ℕ) (waiting : List ℕ)
      → m.state ≡ s
      → (s ≡ pending → m.connection ≢ ct_notset)
      → Returns
          (λ r. Passed s r.0.state × (push_if r.1 p waiting ≡ queued s p waiting))
          (process_pending now m s)
  unfolding process_pending queued push_if
  round_lem m pending p waiting e h = rw (set_lem m.connection (h refl)) (refl, refl)
  round_lem m undelivered p waiting e h = elim (Bool-cases (is_minus_one m.tcp_socket)) [
    | inl no_socket ↦ rw no_socket (retry_lem m e, refl)
    | inr socket ↦ rw socket (inr (inr refl), refl)
  ]
  round_lem m inactive p waiting e h = (e, refl)
  round_lem m inuse p waiting e h = (e, refl)
  round_lem m delivered p waiting e h = (e, refl)
  round_lem m processed p waiting e h = (e, refl)
  round_lem m markforreuse p waiting e h = (e, refl)

  pending_loop_lem :
      (cs : List Cell) (waiting : List ℕ)
      → All (λ c. IsRoutable c.msg) cs
      → Returns
          (λ r. AllPassed cs r.0 × (r.1 ≡ all_queued cs waiting))
          (pending_loop now cs waiting)
  unfolding pending_loop all_queued
  pending_loop_lem [] waiting h = (refl, refl)
  pending_loop_lem (c ∷ cs) waiting h =
      Returns-bind _ _ (process_pending now c.msg c.msg.state) _
        (round_lem c.msg c.msg.state c.ptr waiting refl h.0)
        (λ r passed.
          Returns-bind _ _ (pending_loop now cs (push_if r.1 c.ptr waiting)) _
            (pending_loop_lem cs (push_if r.1 c.ptr waiting) h.1)
            (λ rest all. ((refl, passed.0, all.0), all.1 ∙ ap (all_queued cs) passed.1)))

  -- Where every pending message has a connection type, ProcessPendingMessages returns. It queues
  -- the pending messages and no other, marks them as in use, and leaves the free stack alone; an
  -- undelivered message stays, is pending or is marked for reuse, and any other keeps its state.
  pub process_pending_messages_lem :
      (q : Queue)
      → All (λ c. IsRoutable c.msg) q.pool.messages
      → Returns
          (λ r.
            AllPassed q.pool.messages r.pool.messages
            × (r.waiting ≡ all_queued q.pool.messages q.waiting)
            × (r.pool.free ≡ q.pool.free))
          (process_pending_messages now q)
  unfolding process_pending_messages
  process_pending_messages_lem q h =
      Returns-bind _ _ (pending_loop now q.pool.messages q.waiting) _
        (pending_loop_lem q.pool.messages q.waiting h) (λ r all. (all.0, all.1, refl))
