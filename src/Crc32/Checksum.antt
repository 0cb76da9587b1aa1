-- ===== src/Crc32/Checksum.antt =====
-- The checksum by the table is the one bit by bit.
use msg_courier.Prelude.{
  ℕ, ◌*◌, ◌/◌, ◌%◌, ◌^◌, ◌≤◌, ◌<◌, ◌≡◌, refl, sym, ap, ap₂, ◌∙◌, List, [], ◌∷◌, arith, get_or, All,
  length, take,
}
use msg_courier.Memory.{done, Block}
use msg_courier.Memory.Laws.{read_start-done}
use msg_courier.Buffer.Text.{xor}
use msg_courier.Buffer.Text.Crypto.{xor-lt}
use msg_courier.Crc32.{crc_table, crc_step, crc_loop, ones, hashed, crc}
use msg_courier.Crc32.Xor.{xor_zero, halves, doubles, halves-xor, xor-doubles}
use msg_courier.Crc32.Bits.{shift_bits, divide, shift_bits-xor, shift_bits-doubles, table-shifts}

halves_byte : (x : ℕ) → halves 8 x ≡ x / 256
unfolding halves
halves_byte x = omega arith

doubles_byte : (x : ℕ) → doubles 8 x ≡ 256 * x
unfolding doubles
doubles_byte x = omega arith

-- The bits above the lowest eight are those of the hash.
high_bits : (hash b : ℕ) → hash < 2 ^ 64 → b < 256 → xor 64 hash b / 256 ≡ hash / 256
high_bits hash b h k =
    sym (halves_byte (xor 64 hash b))
    ∙ halves-xor 8 56 hash b
    ∙ ap₂ (xor 56) (halves_byte hash) (halves_byte b ∙ omega (arith, k))
    ∙ xor_zero 56 (hash / 256) (omega (arith, h))

-- Eight shifts by the table.
shifts-table :
    (x : ℕ) → x < 2 ^ 64 → shift_bits 63 8 x ≡ xor 64 (get_or crc_table (x % 256) 0) (x / 256)
shifts-table x h =
    let split : x ≡ xor 64 (x % 256) (doubles 8 (x / 256)) = sym (
      xor-doubles 8 56 (x % 256) (x / 256) (omega arith) (omega (arith, h))
      ∙ omega (arith, doubles_byte (x / 256))) in
    ap (shift_bits 63 8) split
    ∙ shift_bits-xor 63 8 (x % 256) (doubles 8 (x / 256)) (omega arith)
        (omega (arith, doubles_byte (x / 256), h))
    ∙ ap₂ (xor 64) (sym (table-shifts (x % 256) (omega arith))) (shift_bits-doubles 63 8 (x / 256))

step-shifts :
    (hash b : ℕ) → hash < 2 ^ 64 → b < 256 → crc_step hash b ≡ shift_bits 63 8 (xor 64 hash b)
unfolding crc_step
step-shifts hash b h k = sym (
    shifts-table (xor 64 hash b) (xor-lt 64 hash b)
    ∙ ap (xor 64 (get_or crc_table (xor 64 hash b % 256) 0)) (high_bits hash b h k))

step-lt : (hash b : ℕ) → crc_step hash b < 2 ^ 64
unfolding crc_step
step-lt hash b = xor-lt 64 (get_or crc_table (xor 64 hash b % 256) 0) (hash / 256)

loop-divide :
    (hash : ℕ) (bs : List ℕ)
    → hash < 2 ^ 64
    → All (λ b. b < 256) bs
    → crc_loop hash bs ≡ divide hash bs
unfolding crc_loop divide
loop-divide hash [] h k = refl
loop-divide hash (b ∷ bs) h k =
    loop-divide (crc_step hash b) bs (step-lt hash b) k.1
    ∙ ap (λ x. divide x bs) (step-shifts hash b h k.0)

-- For bytes within the key crc returns, never leaves the key, and finds by its table what the
-- division by the polynomial of CRC-32 finds bit by bit, for every hash to start from.
pub crc-divide :
    (key : Block) (len last : ℕ)
    → len ≤ length key
    → All (λ b. b < 256) (take len key)
    → crc key len last ≡ done (xor 64 (divide (xor 64 last ones) (take len key)) ones)
unfolding crc hashed
crc-divide key len last h k = rw (read_start-done key len h) (
    ap (λ x. done (xor 64 x ones))
      (loop-divide (xor 64 last ones) (take len key) (xor-lt 64 last ones) k))
