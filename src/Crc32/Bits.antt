-- ===== src/Crc32/Bits.antt =====
-- The checksum bit by bit: the division by the polynomial, without a table.
use msg_courier.Prelude.{
  ℕ, zero, suc, ◌+◌, ◌*◌, ◌/◌, ◌%◌, ◌^◌, ◌<◌, ◌≡◌, refl, sym, ap, ap₂, ◌∙◌, false, inl, inr,
  Bool-cases, List, [], ◌∷◌, arith, ◌==◌, if◌then◌else◌, get_or, by_table, all_below,
}
use native.Mathlib.Nat.{pow-suc}
use msg_courier.Buffer.Text.{xor}
use msg_courier.Buffer.Text.Crypto.{halve, xor_twice, xor_swap, xor-lt}
use msg_courier.Crc32.{crc_table}
use msg_courier.Crc32.Xor.{xor_assoc, xor_wide, doubles}

-- The polynomial of CRC-32, its lowest bit first
abbrev pub polynomial : ℕ
polynomial = 3988292384

-- One bit: a number of w + 1 bits is shifted, and the polynomial is taken off if a one goes.
unfoldable pub shift_bit : ℕ → ℕ → ℕ
shift_bit w x = if x % 2 == 1 then xor (suc w) (x / 2) polynomial else x / 2

unfoldable pub shift_bits : ℕ → ℕ → ℕ → ℕ
unfolding shift_bit
shift_bits w zero x = x
shift_bits w (suc k) x = shift_bits w k (shift_bit w x)

-- The checksum of a text, a byte at a time
unfoldable pub divide : ℕ → List ℕ → ℕ
unfolding shift_bits
divide hash [] = hash
divide hash (b ∷ bs) = divide (shift_bits 63 8 (xor 64 hash b)) bs

module _ (w : ℕ) where
  abbrev shifted : ℕ → ℕ → ℕ
  shifted bit high = if bit == 1 then xor (suc w) high polynomial else high

  shifted-xor :
      (a b x y : ℕ)
      → a < 2
      → b < 2
      → shifted ((a + b) % 2) (xor (suc w) x y) ≡ xor (suc w) (shifted a x) (shifted b y)
  shifted-xor zero zero x y h k = refl
  shifted-xor (suc zero) zero x y h k = xor_swap (suc w) x y polynomial
  shifted-xor zero (suc zero) x y h k = sym (xor_assoc (suc w) x y polynomial)
  shifted-xor (suc zero) (suc zero) x y h k = sym (
      xor_assoc (suc w) (xor (suc w) x polynomial) y polynomial
      ∙ ap (λ z. xor (suc w) z polynomial) (xor_swap (suc w) x polynomial y)
      ∙ xor_twice (suc w) (xor (suc w) x y) polynomial (xor-lt (suc w) x y))
  shifted-xor (suc (suc a)) b x y h k = absurd (omega (arith, h))
  shifted-xor zero (suc (suc b)) x y h k = absurd (omega (arith, k))
  shifted-xor (suc zero) (suc (suc b)) x y h k = absurd (omega (arith, k))

  xor-halves :
      (x y : ℕ)
      → x < 2 ^ suc w
      → y < 2 ^ suc w
      → (xor (suc w) x y / 2 ≡ xor (suc w) (x / 2) (y / 2))
        × (xor (suc w) x y % 2 ≡ (x % 2 + y % 2) % 2)
  unfolding xor
  xor-halves x y h k = (
    halve (xor w (x / 2) (y / 2)) (x % 2 + y % 2)
        ∙ sym (
            xor_wide w (x / 2) (y / 2) (omega (arith, h, pow-suc 2 w))
              (omega (arith, k, pow-suc 2 w))),
    omega arith,
  )

  -- A shift is linear.
  pub shift_bit-xor :
      (x y : ℕ)
      → x < 2 ^ suc w
      → y < 2 ^ suc w
      → shift_bit w (xor (suc w) x y) ≡ xor (suc w) (shift_bit w x) (shift_bit w y)
  unfolding shift_bit
  shift_bit-xor x y h k =
      let (high, low) = xor-halves x y h k in
      ap₂ shifted low high ∙ shifted-xor (x % 2) (y % 2) (x / 2) (y / 2) (omega arith) (omega arith)

  shift_bit-lt : (x : ℕ) → x < 2 ^ suc w → shift_bit w x < 2 ^ suc w
  unfolding shift_bit
  shift_bit-lt x h = elim (Bool-cases (x % 2 == 1)) [
    | inl e ↦ rw e (xor-lt (suc w) (x / 2) polynomial)
    | inr e ↦ rw e (omega (arith, h))
  ]

  pub shift_bits-xor :
      (k x y : ℕ)
      → x < 2 ^ suc w
      → y < 2 ^ suc w
      → shift_bits w k (xor (suc w) x y) ≡ xor (suc w) (shift_bits w k x) (shift_bits w k y)
  unfolding shift_bits
  shift_bits-xor zero x y h l = refl
  shift_bits-xor (suc k) x y h l =
      ap (shift_bits w k) (shift_bit-xor x y h l)
      ∙ shift_bits-xor k (shift_bit w x) (shift_bit w y) (shift_bit-lt x h) (shift_bit-lt y l)

  pub shift_bits-doubles : (k q : ℕ) → shift_bits w k (doubles k q) ≡ q
  unfolding shift_bits doubles shift_bit
  shift_bits-doubles zero q = refl
  shift_bits-doubles (suc k) q =
      let even : (doubles k q * 2 % 2 == 1) ≡ false = ground arith in
      let half : doubles k q * 2 / 2 ≡ doubles k q = omega arith in
      rw (even, half) (shift_bits-doubles k q)

-- The table holds what eight shifts make of a byte.
pub table-shifts : (i : ℕ) → i < 256 → get_or crc_table i 0 ≡ shift_bits 63 8 i
unfolding crc_table shift_bits shift_bit xor all_below
table-shifts = by_table 256 (λ i. get_or crc_table i 0) (λ i. shift_bits 63 8 i) refl
