-- ===== src/Base64/Words.antt =====
-- The masks and shifts of base64.cpp as arithmetic on bytes, and the alphabet as a table.
use msg_courier.Prelude.{
  ℕ, ◌+◌, ◌*◌, ◌/◌, ◌%◌, ◌<◌, bit_and, ◌≡◌, refl, Bool, true, ◌&&◌, [], ◌∷◌, arith, ◌==◌, all_below,
  all_below_sound, by_table,
}
use msg_courier.Base64.{triple, letter, find, accepts}

-- What each mask and shift leaves of a byte.
high_six : (x : ℕ) → x < 256 → bit_and x 0xfc / 4 ≡ x / 4
unfolding all_below
high_six = by_table 256 (λ x. bit_and x 0xfc / 4) (λ x. x / 4) refl

low_two : (x : ℕ) → x < 256 → bit_and x 0x03 ≡ x % 4
unfolding all_below
low_two = by_table 256 (λ x. bit_and x 0x03) (λ x. x % 4) refl

high_four : (x : ℕ) → x < 256 → bit_and x 0xf0 / 16 ≡ x / 16
unfolding all_below
high_four = by_table 256 (λ x. bit_and x 0xf0 / 16) (λ x. x / 16) refl

pub low_four : (x : ℕ) → x < 256 → bit_and x 0x0f ≡ x % 16
unfolding all_below
low_four = by_table 256 (λ x. bit_and x 0x0f) (λ x. x % 16) refl

high_two : (x : ℕ) → x < 256 → bit_and x 0xc0 / 64 ≡ x / 64
unfolding all_below
high_two = by_table 256 (λ x. bit_and x 0xc0 / 64) (λ x. x / 64) refl

low_six : (x : ℕ) → x < 256 → bit_and x 0x3f ≡ x % 64
unfolding all_below
low_six = by_table 256 (λ x. bit_and x 0x3f) (λ x. x % 64) refl

pub bits_4_5 : (x : ℕ) → x < 256 → bit_and x 0x30 / 16 ≡ x / 16 % 4
unfolding all_below
bits_4_5 = by_table 256 (λ x. bit_and x 0x30 / 16) (λ x. x / 16 % 4) refl

pub bits_2_5 : (x : ℕ) → x < 256 → bit_and x 0x3c / 4 ≡ x / 4 % 16
unfolding all_below
bits_2_5 = by_table 256 (λ x. bit_and x 0x3c / 4) (λ x. x / 4 % 16) refl

-- The masks of the three bytes of a group, as its digits of six bits.
pub quad_lem :
    (a b c : ℕ)
    → a < 256
    → b < 256
    → c < 256
    → (bit_and a 0xfc / 4 ≡ a / 4)
      × (bit_and a 0x03 * 16 + bit_and b 0xf0 / 16 ≡ a % 4 * 16 + b / 16)
      × (bit_and b 0x0f * 4 + bit_and c 0xc0 / 64 ≡ b % 16 * 4 + c / 64)
      × (bit_and c 0x3f ≡ c % 64)
quad_lem a b c ha hb hc = (
  high_six a ha,
  omega (arith, low_two a ha, high_four b hb),
  omega (arith, low_four b hb, high_two c hc),
  low_six c hc,
)

-- Three bytes from four digits that were made of them.
pub triple-quad :
    (a b c : ℕ)
    → a < 256
    → b < 256
    → c < 256
    → triple (a / 4) (a % 4 * 16 + b / 16) (b % 16 * 4 + c / 64) (c % 64) ≡ a ∷ b ∷ c ∷ []
unfolding triple
triple-quad a b c ha hb hc =
    let q = a % 4 * 16 + b / 16 in
    let r = b % 16 * 4 + c / 64 in
    let hq : q < 256 = omega arith in
    let hr : r < 256 = omega arith in
    let first : (a / 4 * 4 + bit_and q 0x30 / 16) % 256 ≡ a = omega (arith, bits_4_5 q hq) in
    let second : (bit_and q 0xf * 16 + bit_and r 0x3c / 4) % 256 ≡ b =
      omega (arith, low_four q hq, bits_2_5 r hr) in
    let third : (bit_and r 0x3 * 64 + c % 64) % 256 ≡ c = omega (arith, low_two r hr) in
    cc (first, second, third)

-- Every letter of the alphabet is accepted, and is found at its own place.
abbrev letters_ok : ℕ → Bool
letters_ok i = (find (letter i) == i) && accepts (letter i)

letters_table : all_below 64 letters_ok ≡ true
unfolding all_below find letter accepts
letters_table = refl

pub find-letter : (i : ℕ) → i < 64 → find (letter i) ≡ i
find-letter i h = ground (arith, all_below_sound 64 letters_ok i letters_table h)

pub accepts-letter : (i : ℕ) → i < 64 → accepts (letter i) ≡ true
accepts-letter i h = ground (arith, all_below_sound 64 letters_ok i letters_table h)

-- The NUL that pads a last group stands behind the letters.
pub find-zero : find 0 ≡ 64
unfolding find
find-zero = refl
