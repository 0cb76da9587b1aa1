-- ===== src/Crc32/Xor.antt =====
-- The operator ^ on numbers of w bits: its laws, and the two parts of a number.
use msg_courier.Prelude.{ℕ, zero, suc, ◌+◌, ◌*◌, ◌/◌, ◌%◌, ◌^◌, ◌<◌, ◌≡◌, refl, ap, ◌∙◌, arith}
use native.Mathlib.Nat.{pow-suc}
use msg_courier.Buffer.Text.{xor}
use msg_courier.Buffer.Text.Crypto.{halve}

pub xor_assoc : (w x y z : ℕ) → xor w x (xor w y z) ≡ xor w (xor w x y) z
unfolding xor
xor_assoc zero x y z = refl
xor_assoc (suc w) x y z =
    rw
      (
        halve (xor w (x / 2) (y / 2)) (x % 2 + y % 2),
        halve (xor w (y / 2) (z / 2)) (y % 2 + z % 2),
        xor_assoc w (x / 2) (y / 2) (z / 2),
      )
      (omega arith)

pub xor_zero : (w x : ℕ) → x < 2 ^ w → xor w x 0 ≡ x
unfolding xor
xor_zero zero x h = omega (arith, h)
xor_zero (suc w) x h =
    let deep = xor_zero w (x / 2) (omega (arith, h, pow-suc 2 w)) in rw deep (omega arith)

pub xor_zero_left : (w x : ℕ) → x < 2 ^ w → xor w 0 x ≡ x
unfolding xor
xor_zero_left zero x h = omega (arith, h)
xor_zero_left (suc w) x h =
    let deep = xor_zero_left w (x / 2) (omega (arith, h, pow-suc 2 w)) in rw deep (omega arith)

-- One more bit changes nothing where it is not used.
pub xor_wide : (w x y : ℕ) → x < 2 ^ w → y < 2 ^ w → xor (suc w) x y ≡ xor w x y
unfolding xor
xor_wide zero x y h k = omega (arith, h, k)
xor_wide (suc w) x y h k =
    let deep =
      xor_wide w (x / 2) (y / 2) (omega (arith, h, pow-suc 2 w)) (omega (arith, k, pow-suc 2 w)) in
    ap (λ a. a * 2 + (x % 2 + y % 2) % 2) deep

-- The lower bits of a number are cut off, or put back as zeros.
unfoldable pub halves : ℕ → ℕ → ℕ
halves zero x = x
halves (suc k) x = halves k (x / 2)

unfoldable pub doubles : ℕ → ℕ → ℕ
doubles zero x = x
doubles (suc k) x = doubles k x * 2

pub halves-xor : (k v x y : ℕ) → halves k (xor (k + v) x y) ≡ xor v (halves k x) (halves k y)
unfolding halves xor
halves-xor zero v x y = let e : 0 + v ≡ v = omega arith in rw e refl
halves-xor (suc k) v x y =
    let e : suc k + v ≡ suc (k + v) = omega arith in
    rw e (rw (halve (xor (k + v) (x / 2) (y / 2)) (x % 2 + y % 2)) (halves-xor k v (x / 2) (y / 2)))

pub xor-doubles :
    (k v r q : ℕ) → r < 2 ^ k → q < 2 ^ v → xor (k + v) r (doubles k q) ≡ r + doubles k q
unfolding doubles xor
xor-doubles zero v r q h l =
    let e : 0 + v ≡ v = omega arith in
    let none_left : r ≡ 0 = omega (arith, h) in
    rw (e, none_left) (xor_zero_left v q l ∙ omega arith)
xor-doubles (suc k) v r q h l =
    let e : suc k + v ≡ suc (k + v) = omega arith in
    let deep = xor-doubles k v (r / 2) q (omega (arith, h, pow-suc 2 k)) l in
    let half : doubles k q * 2 / 2 ≡ doubles k q = omega arith in
    rw e (rw (half, deep) (omega arith))
