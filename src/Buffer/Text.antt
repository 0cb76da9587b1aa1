-- ===== src/Buffer/Text.antt =====
-- Crypto, ToUpper, ToLower and Truncate of buffer.cpp, which change a buffer's bytes in place.
pub mod Crypto
use msg_courier.Prelude.{
  ℕ, zero, suc, ◌+◌, ◌-◌, ◌*◌, ◌/◌, ◌%◌, Bool, true, false, ◌&&◌, Option, none, some, List, [], ◌∷◌,
  ◌++◌, map, ltb, if◌then◌else◌, get_elem?, take, drop,
}
use msg_courier.Memory.{Outcome, done, fault, ◌>>=◌, Block}
use msg_courier.Buffer.{Buffer, memory}

-- The operator ^ on numbers of w bits.
unfoldable pub xor : ℕ → ℕ → ℕ → ℕ
xor zero x y = 0
xor (suc w) x y = let high = xor w (x / 2) (y / 2) in high * 2 + (x % 2 + y % 2) % 2

-- *pBuffer ^ *pKey ^ (char)i, as the byte that is stored
pub mix : ℕ → ℕ → ℕ → ℕ
unfolding xor
mix c k i = xor 8 (xor 8 c k) (i % 256)

-- *pKey at an offset of the key, where it is back at the start if it stands on the NUL.
key_at : Block → ℕ → Option ℕ → Outcome (ℕ × ℕ)
key_at key j none = fault
key_at key j (some (suc k)) = done (suc k, j)
key_at key j (some zero) = elim (get_elem? key 0) [ none ↦ fault | some k ↦ done (k, 0) ]

-- The loop, with the bytes ahead of it.
crypto_loop : Block → ℕ → ℕ → List ℕ → Outcome (List ℕ)
unfolding key_at mix
crypto_loop key j i [] = done []
crypto_loop key j i (c ∷ cs) = do
  (k, j') ← key_at key j (get_elem? key j)
  rest ← crypto_loop key (j' + 1) (i + 1) cs
  done (mix c k i ∷ rest)

-- The first m_iTail bytes of the memory, changed.
in_place : (List ℕ → Outcome (List ℕ)) → Option Block → Buffer → Outcome Buffer
in_place f none b = done b
in_place f (some m) b = do
  front ← f (take b.tail m)
  done (record b { block = some (front ++ drop b.tail m) })

pub crypto : Block → Buffer → Outcome Buffer
unfolding crypto_loop in_place
crypto key b = in_place (crypto_loop key 0 0) b.block b

-- _toupper and _tolower of a letter
pub upper : ℕ → ℕ
upper c = if ltb 96 c && ltb c 123 then c - 32 else c

pub lower : ℕ → ℕ
lower c = if ltb 64 c && ltb c 91 then c + 32 else c

pub to_upper : Buffer → Outcome Buffer
unfolding upper in_place
to_upper b = in_place (λ cs. done (map upper cs)) b.block b

pub to_lower : Buffer → Outcome Buffer
unfolding lower in_place
to_lower b = in_place (λ cs. done (map lower cs)) b.block b

-- m_iTail -= iCount, which may not go below 0.
pub truncate : ℕ → Buffer → Buffer
truncate n b = record b { tail = b.tail - n }
