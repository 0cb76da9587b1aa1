-- ===== src/Buffer/Cleanup.antt =====
-- Cleanup of buffer.cpp. strlen reads the block up to its first NUL, wherever the tail is.
mod Runs
use msg_courier.Prelude.{
  ℕ, zero, suc, ◌-◌, Bool, true, false, ◌&&◌, Option, none, some, List, [], ◌∷◌, leb, ◌==◌,
  if◌then◌else◌, length,
}
use msg_courier.Memory.{Outcome, done, fault, ◌>>=◌, Malloc}
use msg_courier.Buffer.{Buffer, memory, make_string, remove}
use msg_courier.Buffer.Search.{up_to_nul}
use msg_courier.Buffer.ReplaceAll.{replace_all}

-- The spaces at the beginning of a text
unfoldable pub leading : List ℕ → ℕ
leading [] = 0
leading (c ∷ cs) = let n = leading cs in if c == 32 then suc n else 0

-- and at its end: a space counts if all that is behind it counts.
unfoldable pub trailing : List ℕ → ℕ
trailing [] = 0
trailing (c ∷ cs) = let n = trailing cs in if c == 32 && n == length cs then suc n else n

unfoldable pub remove_front : ℕ → Buffer → Outcome Buffer
remove_front zero b = done b
remove_front (suc j) b = do (code, b') ← remove 0 (suc j) b; done b'

-- Truncate and MakeString; a tail below 0 is in front of the block.
unfoldable pub cut_end : ℕ → Buffer → Outcome Buffer
cut_end j b = if leb j b.tail then make_string (record b { tail = b.tail - j }) else fault

unfoldable pub trimmed : Buffer → Outcome Buffer
unfolding leading trailing remove_front cut_end
trimmed b = do
  text ← up_to_nul (memory b.block)
  b' ← remove_front (leading text) b
  text' ← up_to_nul (memory b'.block)
  cut_end (trailing text') b'

-- The buffer has a block if it has had contents.
unfoldable pub cleanup : Malloc → Buffer → Outcome Buffer
unfolding replace_all trimmed
cleanup malloc b = do
  b₁ ← replace_all malloc (9 ∷ []) [] b
  b₂ ← replace_all malloc (13 ∷ []) [] b₁
  b₃ ← replace_all malloc (10 ∷ []) [] b₂
  elim b₃.block [ none ↦ done b₃ | some m ↦ trimmed b₃ ]
