-- ===== src/Prelude/Ints.antt =====
-- The C `int`s of the program that can be negative: socket handles, ports and timestamps.
use Prim.Native.Nat.{ℕ, compare, Ordering}
use mathlib.Core.Path.{◌≡◌}
use mathlib.Core.Logic.{◌↔◌}
use mathlib.Core.Bool.{Bool, true, false}
use native.Mathlib.Omega.{arith}

-- `negsuc n` is -(n + 1).
pub data ℤ : Type 0 where
  pos : ℕ → ℤ
  negsuc : ℕ → ℤ

abbrev pub minus_one : ℤ
minus_one = negsuc 0

abbrev pub is_minus_one : ℤ → Bool
is_minus_one (pos n) = false
is_minus_one (negsuc n) = elim (compare n 0) [ Ordering.eq ↦ true | _ ↦ false ]

pub is_minus_one_iff : (z : ℤ) → (is_minus_one z ≡ true) ↔ (z ≡ minus_one)
is_minus_one_iff (pos n) = ground arith
is_minus_one_iff (negsuc n) = ground arith
