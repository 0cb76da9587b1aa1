-- ===== src/MsgQueue/Pending/Retry.antt =====
-- The back-off of an undelivered message over the passes of the loop.
use msg_courier.Prelude.{
  ℕ, ◌+◌, ◌-◌, ◌*◌, ◌≤◌, ◌<◌, ◌≡◌, ◌≢◌, subst, refl, sym, ◌∙◌, ap, inl, inr, Bool, true, false,
  is_minus_one, if◌then◌else◌, List, [], ◌∷◌, arith, length, Bool-cases,
}
use msg_courier.Memory.{Outcome, done, throws, fault, ◌>>=◌, Returns, Returns-bind}
use msg_courier.MsgQueue.Pending.Queueing.{set_lem}
use msg_courier.Msg.{Msg, ct_notset, inuse, pending, undelivered, markforreuse}
use msg_courier.Msg.Setters.{set_msg_state}
use msg_courier.MsgQueue.Pending.{retry, is_delayed, process_pending}
use msg_courier.MsgQueue.Pending.Delay.{
  IsRetrying, retry-IsRetrying, retry-Look, retry_delay-le, few,
}

-- A message that leaves the priority queue and that nobody takes is undelivered again.
fail_if : Bool → Msg → Msg
fail_if true m = set_msg_state undelivered m
fail_if false m = m

-- How often the message is pushed on the priority queue, while passes of the loop at the given
-- times come to it, and what it is in the end.
unfoldable pub attempts : List ℕ → Msg → Outcome (ℕ × Msg)
unfolding process_pending fail_if
attempts [] m = done (0, m)
attempts (now ∷ times) m = do
  (m', pushed) ← process_pending now m m.state
  (n, end) ← attempts times (fail_if pushed m')
  done ((if pushed then n + 1 else n), end)

-- Passes with at least the longest delay between them.
abbrev pub Spaced : ℕ → List ℕ → Type 0
Spaced last [] = Unit {0}
Spaced last (now ∷ times) = (last + 512 ≤ now) × Spaced now times

not_delayed :
    (now : ℕ) (m : Msg) → IsRetrying m → m.last_retry_ts + 512 ≤ now → is_delayed now m ≢ true
unfolding is_delayed
not_delayed now m h late = let le = retry_delay-le m h in ground (arith, le, late)

Spaced-weaken : (a b : ℕ) (times : List ℕ) → a ≤ b → Spaced b times → Spaced a times
Spaced-weaken a b [] le s = tt
Spaced-weaken a b (t ∷ ts) le s = (omega (arith, le, s.0), s.1)

retry-same :
    (now : ℕ) (m : Msg)
    → ((retry now m).tcp_socket ≡ m.tcp_socket) × ((retry now m).connection ≡ m.connection)
unfolding retry
retry-same now m = (ground arith, ground arith)

-- With a push counted.
abbrev counted : Bool → ℕ × Msg → Outcome (ℕ × Msg)
counted b r = done ((if b then r.0 + 1 else r.0), r.1)

-- A pass that leaves m'.
attempts-step :
    (now : ℕ) (times : List ℕ) (m m' : Msg) (b : Bool)
    → process_pending now m m.state ≡ done (m', b)
    → attempts (now ∷ times) m ≡ (attempts times (fail_if b m') >>= counted b)
unfolding attempts
attempts-step now times m m' b e = rw (e, ◌>>=◌) refl

attempts_marked :
    (times : List ℕ) (m : Msg) → m.state ≡ markforreuse → attempts times m ≡ done (0, m)
unfolding attempts process_pending
attempts_marked [] m e = refl
attempts_marked (now ∷ times) m e =
    attempts-step now times m m false (ap (process_pending now m) e)
    ∙ rw (attempts_marked times m e, ◌>>=◌) refl

-- A pass that marks the message is the last that does anything.
attempts-dropped :
    (now : ℕ) (times : List ℕ) (m m' : Msg)
    → process_pending now m m.state ≡ done (m', false)
    → m'.state ≡ markforreuse
    → attempts (now ∷ times) m ≡ done (0, m')
unfolding fail_if
attempts-dropped now times m m' e drop =
    attempts-step now times m m' false e ∙ rw (attempts_marked times m' drop, ◌>>=◌) refl

-- So often a message is sent that has been sent before.
abbrev pub left_over : Bool → ℕ → ℕ
left_over true count = 10 - count
left_over false count = 0

abbrev pub LetGo : Msg → ℕ × Msg → Type 0
LetGo m r = (r.0 ≡ left_over (is_minus_one m.tcp_socket) m.retry_count) × (r.1.state ≡ markforreuse)

pending-pushed :
    (now : ℕ) (m : Msg)
    → m.state ≡ pending
    → m.connection ≢ ct_notset
    → process_pending now m m.state ≡ done (set_msg_state inuse m, true)
unfolding process_pending
pending-pushed now m e set = rw (e, set_lem m.connection set) refl

module _ (now : ℕ) (m : Msg) (e : m.state ≡ undelivered) where
  undelivered-retry :
      is_minus_one m.tcp_socket ≡ true → process_pending now m m.state ≡ done (retry now m, false)
  unfolding process_pending
  undelivered-retry free = rw (e, free) refl

  undelivered-marked :
      is_minus_one m.tcp_socket ≡ false
      → process_pending now m m.state ≡ done (set_msg_state markforreuse m, false)
  unfolding process_pending
  undelivered-marked bound = rw (e, bound) refl

-- Two passes that send the message once more.
attempts-sent :
    (now next : ℕ) (times : List ℕ) (m : Msg)
    → m.state ≡ undelivered
    → is_minus_one m.tcp_socket ≡ true
    → m.connection ≢ ct_notset
    → (retry now m).state ≡ pending
    → attempts (now ∷ next ∷ times) m
      ≡ (attempts times (set_msg_state undelivered (retry now m)) >>= counted true)
unfolding fail_if
attempts-sent now next times m e free set sent =
    attempts-step now (next ∷ times) m (retry now m) false (undelivered-retry now m e free)
    ∙ rw
        (attempts-step next times (retry now m) (set_msg_state inuse (retry now m)) true
          (pending-pushed next (retry now m) sent (λ z. set (sym (retry-same now m).1 ∙ z))))
        (joined (attempts times (set_msg_state undelivered (retry now m))))
  where
    joined :
        (o : Outcome (ℕ × Msg)) → ((o >>= counted true) >>= counted false) ≡ (o >>= counted true)
    joined (done r) = refl
    joined throws = refl
    joined fault = refl

-- The count of what is left, after one more.
one_more :
    (m m' : Msg) (r : ℕ × Msg)
    → is_minus_one m.tcp_socket ≡ true
    → is_minus_one m'.tcp_socket ≡ true
    → m'.retry_count ≡ m.retry_count + 1
    → m'.retry_count ≤ 10
    → LetGo m' r
    → LetGo m (r.0 + 1, r.1)
one_more m m' r free free' more le (count, marked) =
    let z = count ∙ ap (λ t. left_over t m'.retry_count) free' in
    (omega (arith, z, more, le) ∙ ap (λ t. left_over t m.retry_count) (sym free), marked)

module _ (now : ℕ) (times : List ℕ) (m : Msg) (spaced : Spaced m.last_retry_ts (now ∷ times))
    (e : m.state ≡ undelivered) (h : IsRetrying m) where
  -- A pass that sends the message once more, or lets go of it.
  attempts-cases :
      ((retry now m).state ≡ pending
        → is_minus_one m.tcp_socket ≡ true
        → (retry now m).retry_count ≡ m.retry_count + 1
        → (retry now m).last_retry_ts ≡ now
        → Returns (LetGo m) (attempts (now ∷ times) m))
      → Returns (LetGo m) (attempts (now ∷ times) m)
  attempts-cases again = elim (Bool-cases (is_minus_one m.tcp_socket)) [
    | inr bound ↦
        rw
          (attempts-dropped now times m (set_msg_state markforreuse m)
            (undelivered-marked now m e bound) refl)
          (rw bound (refl, refl))
    | inl free ↦ elim (retry-Look now m h) [
      | inl (same, early) ↦ absurd (not_delayed now m h spaced.0 early)
      | inr (inr (dropped, count)) ↦
          rw (attempts-dropped now times m (retry now m) (undelivered-retry now m e free) dropped)
            (rw free (omega (arith, count), dropped))
      | inr (inl (sent, count, at)) ↦ again sent free count at
    ]
  ]

-- Over the passes of ProcessPendingMessages an undelivered message with a connection type, which
-- is left undelivered again whenever it was queued, is let go of: it is queued so often that with
-- its retry count it makes ten, or not at all where it has a TCP socket, and is marked for reuse
-- in the end. The passes are 512 seconds apart or more, the first from the last retry, and there
-- are more than twenty, where each retry before counts for two. The message has not been retried
-- yet, with the delay 1, or its retry count is from 1 to 10, its delay is half of 2 to that power
-- and the time of its last retry is not 0.
pub attempts-ends :
    (times : List ℕ) (m : Msg)
    → Spaced m.last_retry_ts times
    → 20 < length times + m.retry_count * 2
    → m.state ≡ undelivered
    → m.connection ≢ ct_notset
    → IsRetrying m
    → Returns (LetGo m) (attempts times m)
attempts-ends [] m spaced n e set h = absurd (omega (arith, few m h, n))
attempts-ends (now ∷ []) m spaced n e set h =
    attempts-cases now [] m spaced e h (λ sent free count at.
      let later = retry-IsRetrying now m (omega (arith, spaced.0)) h in
      absurd (omega (arith, few (retry now m) later, count, n)))
attempts-ends (now ∷ next ∷ times) m spaced n e set h =
    attempts-cases now (next ∷ times) m spaced e h (λ sent free count at.
      let later = retry-IsRetrying now m (omega (arith, spaced.0)) h in
      let m' = set_msg_state undelivered (retry now m) in
      let same = retry-same now m in
      let near = Spaced-weaken now next times (omega (arith, spaced.1.0)) spaced.1.1 in
      rw (attempts-sent now next times m e free set sent) (
        Returns-bind (LetGo m') (LetGo m) (attempts times m') _
          (attempts-ends times m' (subst (λ t. Spaced t times) (sym at) near)
            (omega (arith, n, count)) refl (λ z. set (sym same.1 ∙ z)) later)
          (λ r let_go.
            one_more m m' r free (ap is_minus_one same.0 ∙ free) count (few (retry now m) later)
              let_go)))
