-- ===== src/Examples/Numbers.antt =====
-- A short text for crc32.cpp, and ids that are numbers for uniqueidprovider.cpp.
use msg_courier.Prelude.{ℕ, ◌≡◌, ◌≢◌, refl, [], ◌∷◌, arith, take}
use msg_courier.Memory.{Block, done}
use msg_courier.Buffer.Text.{xor}
use msg_courier.Crc32.{ones, crc, hashed}
use msg_courier.Crc32.Bits.{divide}
use msg_courier.Crc32.Checksum.{crc-divide}
use msg_courier.UniqueIds.{Text, new_provider}
use msg_courier.UniqueIds.Steps.{gets, refills, run, HandedOnce, run-HandedOnce}

-- "abc" and what follows in memory
abbrev letters : Block
letters = 97 ∷ 98 ∷ 99 ∷ 7 ∷ []

crc-divide_example : crc letters 3 0 ≡ done (xor 64 (divide (xor 64 0 ones) (take 3 letters)) ones)
crc-divide_example =
    crc-divide letters 3 0 (omega arith) (omega arith, (omega arith, (omega arith, tt)))

-- The check value of CRC-32, 0xcbf43926, for "123456789"
check_value : hashed 0 (49 ∷ 50 ∷ 51 ∷ 52 ∷ 53 ∷ 54 ∷ 55 ∷ 56 ∷ 57 ∷ []) ≡ 3421780262
unfolding hashed xor
check_value = refl

abbrev numbered : ℕ → Text
numbered n = n ∷ []

numbered_there : (n : ℕ) → numbered n ≢ []
numbered_there n e = ground (arith, e)

run-HandedOnce_example :
    HandedOnce numbered (run numbered (gets ∷ refills ∷ gets ∷ gets ∷ []) (new_provider numbered)).0
run-HandedOnce_example = run-HandedOnce numbered numbered_there (gets ∷ refills ∷ gets ∷ gets ∷ [])
