-- ===== src/MsgQueue/Pending/Delay.antt =====
-- The delay of an undelivered message doubles with its retry count, which ends at ten.
use native.Mathlib.Nat.{pow-suc}
use native.Mathlib.Numerals.{add-one}
use msg_courier.Prelude.{
  ℕ, ◌+◌, ◌*◌, ◌^◌, ◌≤◌, ◌<◌, ◌≡◌, refl, ◌⊎◌, inl, inr, true, arith, leb, leb→le, all_below,
  all_below_sound, Bool-cases,
}
use msg_courier.Msg.{Msg, pending, markforreuse}
use msg_courier.MsgQueue.Pending.{retry, is_delayed}

-- Not sent again yet, or sent `retry_count` times with the delay that belongs to it.
abbrev pub IsRetrying : Msg → Type 0
IsRetrying m =
    ((m.retry_count ≡ 0) × (m.last_retry_ts ≡ 0) × (m.retry_delay ≡ 1))
    ⊎ ((0 < m.retry_count)
        × (m.retry_count ≤ 10)
        × (0 < m.last_retry_ts)
        × (m.retry_delay * 2 ≡ 2 ^ m.retry_count))

double : (d c : ℕ) → d * 2 ≡ 2 ^ c → (d + d) * 2 ≡ 2 ^ (c + 1)
double d c e = rw (add-one, pow-suc) (omega (arith, e))

-- At a time after 0, a message that has not been retried, or that has its retry count from 1 to 10
-- and the delay that doubles with it, is so again after the look at it.
pub retry-IsRetrying : (now : ℕ) (m : Msg) → 0 < now → IsRetrying m → IsRetrying (retry now m)
unfolding retry
retry-IsRetrying now m later (inl h) = ground arith
retry-IsRetrying now m later (inr h) = ground (arith, double m.retry_delay m.retry_count)

pow-le-1024 : (c : ℕ) → c < 11 → 2 ^ c ≤ 1024
pow-le-1024 c h = leb→le (2 ^ c) 1024 (all_below_sound 11 (λ x. leb (2 ^ x) 1024) c table h)
  where
    table : all_below 11 (λ x. leb (2 ^ x) 1024) ≡ true
    table = unfold all_below in refl

pub retry_delay-le : (m : Msg) → IsRetrying m → m.retry_delay ≤ 512
retry_delay-le m (inl h) = omega arith
retry_delay-le m (inr h) = omega (arith, pow-le-1024 m.retry_count (omega arith))

-- One look at an undelivered message: it waits, it is sent once more, or it is dropped.
abbrev pub Look : ℕ → Msg → Type 0
Look now m =
    ((retry now m ≡ m) × (is_delayed now m ≡ true))
    ⊎ ((retry now m).state ≡ pending)
      × ((retry now m).retry_count ≡ m.retry_count + 1)
      × ((retry now m).last_retry_ts ≡ now)
    ⊎ ((retry now m).state ≡ markforreuse) × (m.retry_count ≡ 10)

pub retry-Look : (now : ℕ) (m : Msg) → IsRetrying m → Look now m
unfolding retry
retry-Look now m (inl h) = ground arith
retry-Look now m (inr h) = elim (Bool-cases (is_delayed now m)) [
  | inl early ↦ inl (rw early, early)
  | inr due ↦ inr (ground arith)
]

pub few : (m : Msg) → IsRetrying m → m.retry_count ≤ 10
few m (inl new) = omega (arith, new)
few m (inr old) = omega (arith, old)
