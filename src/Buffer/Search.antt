-- ===== src/Buffer/Search.antt =====
-- Find, BinaryFind, Replace, CopyBetween and the operator [] of
-- buffer.cpp. A pattern is the text at pszText, without its NUL. none stands for -1.
pub mod Char
pub mod Pattern
pub mod Places
pub mod Exact
pub mod Binary
pub mod Piece
use msg_courier.Prelude.{
  ℕ, zero, suc, ◌+◌, ◌-◌, Bool, true, false, ◌&&◌, ◌||◌, Option, none, some, List, [], ◌∷◌, ◌++◌,
  ltb, leb, ◌==◌, if◌then◌else◌, get_elem?, drop, length,
}
use msg_courier.Memory.{Outcome, done, fault, ◌>>=◌, Block, Malloc, span}
use msg_courier.Buffer.{
  Buffer, Code, no_error, Len, count, to_nul, memory, make_string, insert, remove, replace_with,
  reset,
}

-- The text that a pointer leads to.
unfoldable pub up_to_nul : Block → Outcome (List ℕ)
up_to_nul [] = fault
up_to_nul (zero ∷ xs) = done []
up_to_nul (suc c ∷ xs) = do rest ← up_to_nul xs; done (suc c ∷ rest)

unfoldable pub begins : List ℕ → List ℕ → Bool
begins [] xs = true
begins (p ∷ ps) [] = false
begins (p ∷ ps) (x ∷ xs) = (p == x) && begins ps xs

-- strstr, for a text that begins at an offset.
unfoldable pub strstr : List ℕ → List ℕ → ℕ → Option ℕ
unfolding begins
strstr pattern [] at = if begins pattern [] then some at else none
strstr pattern (x ∷ xs) at =
    let later = strstr pattern xs (at + 1) in if begins pattern (x ∷ xs) then some at else later

unfoldable pub find : List ℕ → ℕ → Buffer → Outcome (Option ℕ × Buffer)
unfolding up_to_nul strstr
find pattern offset b = if b.tail == 0 then done (none, b) else do
  b' ← make_string b
  text ← up_to_nul (drop offset (memory b'.block))
  done (strstr pattern text offset, b')

-- The text that replaces, with its NUL.
abbrev ended : List ℕ → Block
ended text = text ++ 0 ∷ []

-- true is BUFFER_REPLACE_FAILED.
pub replace : Malloc → List ℕ → List ℕ → Buffer → Outcome (Bool × Buffer)
unfolding find
replace malloc pattern text b = do
  (place, b₁) ← find pattern 0 b
  elim place [
    | none ↦ done (true, b₁)
    | some start ↦ do
      (code, b₂) ← remove start (length pattern) b₁
      b₃ ← insert malloc start (ended text) (count (length text)) b₂
      done (false, b₃)
  ]

-- pPattern[j] against pData[i], with what is left of the pattern.
matches_at : Block → ℕ → List ℕ → Outcome Bool
matches_at m i [] = done true
matches_at m i (p ∷ ps) = elim (get_elem? m i) [
  | none ↦ fault
  | some c ↦ let rest = matches_at m (i + 1) ps in if p == c then rest else done false
]

-- The outer loop, with the rounds left: datalen is m_iTail, however far on pData begins.
binary_loop : Block → ℕ → ℕ → List ℕ → Outcome (Option ℕ)
unfolding matches_at
binary_loop m i zero pattern = done none
binary_loop m i (suc rounds) pattern =
    let later = binary_loop m (i + 1) rounds pattern in
    do here ← matches_at m i pattern; if here then done (some i) else later

unfoldable pub binary_find : ℕ → List ℕ → Buffer → Outcome (Option ℕ)
unfolding binary_loop
binary_find index pattern b =
    if b.tail == 0 || ltb b.tail index
    then done none
    else binary_loop (memory b.block) index b.tail pattern

-- iEnd - iStart: -1 asks for the text up to the NUL, and other negative counts are out of bounds.
between : ℕ → ℕ → Outcome Len
between from to = if to + 1 == from then done to_nul else do k ← span from to; done (count k)

copied : Malloc → ℕ → Len → Buffer → Buffer → Outcome (Bool × Buffer × Buffer)
copied malloc from len b into = do
  (code, into₁) ← replace_with malloc (some (drop from (memory b.block))) len (reset into)
  into₂ ← make_string into₁
  done (false, b, into₂)

-- The result of Find as an int that a test for 1 and a subtraction read.
pub copy_between : Malloc → List ℕ → List ℕ → Buffer → Buffer → Outcome (Bool × Buffer × Buffer)
unfolding find between copied
copy_between malloc first second b into = do
  (start, b₁) ← find first 0 b
  elim start [
    | none ↦ done (true, b₁, reset into)
    | some s ↦ do
      (end, b₂) ← find second (s + 1) b₁
      elim end [
        | none ↦ if s + length first == 0 then copied malloc 0 to_nul b₂ into else fault
        | some e ↦
            if e == 1
            then done (true, b₂, reset into)
            else do len ← between (s + length first) e; copied malloc (s + length first) len b₂ into
      ]
  ]

-- operator[](int), which is 0 out of range
pub at_index : ℕ → Buffer → Outcome ℕ
at_index i b =
    if ltb i b.tail
    then elim (get_elem? (memory b.block) i) [ none ↦ fault | some c ↦ done c ]
    else done 0
