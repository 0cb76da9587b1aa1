-- ===== src/Buffer/ReplaceAll.antt =====
-- ReplaceAll of buffer.cpp.
pub mod Places
pub mod Byte
use msg_courier.Prelude.{ℕ, zero, suc, ◌+◌, Option, none, some, List, [], ◌∷◌, ◌++◌, length}
use msg_courier.Memory.{Outcome, done, fault, ◌>>=◌, Malloc}
use msg_courier.Buffer.{Buffer, count, insert, remove}
use msg_courier.Buffer.Search.{find}

-- Remove and Insert at one place; the text that is inserted has its NUL.
unfoldable pub replace_at : Malloc → ℕ → ℕ → List ℕ → Buffer → Outcome Buffer
replace_at malloc start n text b = do
  (code, b') ← remove start n b
  insert malloc start (text ++ 0 ∷ []) (count (length text)) b'

-- The loop, with the rounds left. An empty pattern is found in every round, and the loop of the
-- source does not end.
unfoldable pub replace_loop : Malloc → List ℕ → List ℕ → ℕ → ℕ → Buffer → Outcome Buffer
unfolding find replace_at
replace_loop malloc pattern text zero i b = fault
replace_loop malloc pattern text (suc rounds) i b = do
  (place, b₁) ← find pattern i b
  elim place [
    | none ↦ done b₁
    | some start ↦ do
      b₂ ← replace_at malloc start (length pattern) text b₁
      replace_loop malloc pattern text rounds (start + length text) b₂
  ]

-- Each round but the last leaves less behind the place where the next search begins.
unfoldable pub replace_all : Malloc → List ℕ → List ℕ → Buffer → Outcome Buffer
unfolding replace_loop
replace_all malloc pattern text b = replace_loop malloc pattern text (b.tail + 1) 0 b
