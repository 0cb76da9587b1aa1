-- ===== src/Buffer/Search/Pattern.antt =====
-- Find answers with the first place of a pattern in a buffer's text.
use msg_courier.Prelude.{
  ℕ, zero, suc, ◌+◌, ◌-◌, ◌≤◌, ◌<◌, ◌≡◌, refl, sym, ◌∙◌, ap, ap₂, subst, inl, inr, true, false,
  Bool, Bool-cases, ==_iff, ◌==◌, Option, none, some, List, [], ◌∷◌, ◌++◌, arith, get_elem?, get_or,
  length, length-take, take, drop, if◌then◌else◌,
}
use msg_courier.Memory.{done, Block, Returns, overwrite}
use msg_courier.Buffer.{Buffer, content, memory, bytes}
use msg_courier.Buffer.Append.{Holds, closed, make_string-closed, closed-Holds}
use msg_courier.Buffer.Valid.{Held, IsValid}
use msg_courier.Buffer.Search.{begins, strstr, up_to_nul, find}

-- The pattern stands that far on in the text.
abbrev pub Stands : List ℕ → List ℕ → ℕ → Type 0
Stands pattern xs k = take (length pattern) (drop k xs) ≡ pattern

-- The first place of the pattern, counted from `at`, or no place at all.
abbrev pub IsPlace : List ℕ → List ℕ → ℕ → Option ℕ → Type 0
IsPlace pattern xs at none = (j : ℕ) → j ≤ length xs → ¬ (Stands pattern xs j)
IsPlace pattern xs at (some k) =
    (d : ℕ) × (k ≡ at + d)
    × (d ≤ length xs)
    × Stands pattern xs d
    × ((j : ℕ) → j < d → ¬ (Stands pattern xs j))

-- The same by the test that the loop makes.
abbrev IsTested : List ℕ → List ℕ → ℕ → Option ℕ → Type 0
IsTested pattern xs at none = (j : ℕ) → j ≤ length xs → begins pattern (drop j xs) ≡ false
IsTested pattern xs at (some k) =
    (d : ℕ) × (k ≡ at + d)
    × (d ≤ length xs)
    × (begins pattern (drop d xs) ≡ true)
    × ((j : ℕ) → j < d → begins pattern (drop j xs) ≡ false)

pub begins-take :
    (pattern xs : List ℕ) → begins pattern xs ≡ true → take (length pattern) xs ≡ pattern
unfolding begins
begins-take [] xs h = refl
begins-take (p ∷ ps) [] h = ground (arith, h)
begins-take (p ∷ ps) (x ∷ xs) h = elim (Bool-cases (p == x)) [
  | inl e ↦ ap₂ (λ y ys. y ∷ ys) (sym ((==_iff p x).0 e)) (begins-take ps xs (ground (arith, e, h)))
  | inr e ↦ ground (arith, e, h)
]

end_none :
    (pattern : List ℕ) → begins pattern [] ≡ false → (j : ℕ) → begins pattern (drop j []) ≡ false
end_none pattern e zero = e
end_none pattern e (suc j) = e

end_lem :
    (b : Bool) (pattern : List ℕ) (at : ℕ)
    → begins pattern [] ≡ b
    → IsTested pattern [] at (if b then some at else none)
end_lem true pattern at e = (0, omega arith, omega arith, e, λ j h. absurd (omega (arith, h)))
end_lem false pattern at e = λ j h. end_none pattern e j

-- Below the next character, as far as some bound.
later_none :
    (pattern xs : List ℕ) (x d : ℕ)
    → begins pattern (x ∷ xs) ≡ false
    → ((j : ℕ) → j < d → begins pattern (drop j xs) ≡ false)
    → (j : ℕ) → j < suc d
    → begins pattern (drop j (x ∷ xs)) ≡ false
later_none pattern xs x d e h zero lt = e
later_none pattern xs x d e h (suc j) lt = h j (omega (arith, lt))

later_lem :
    (pattern xs : List ℕ) (x at : ℕ) (o : Option ℕ)
    → begins pattern (x ∷ xs) ≡ false
    → IsTested pattern xs (at + 1) o
    → IsTested pattern (x ∷ xs) at o
later_lem pattern xs x at none e h = λ j le.
    later_none pattern xs x (length xs + 1) e (λ i lt. h i (omega (arith, lt))) j
      (omega (arith, le))
later_lem pattern xs x at (some k) e (d, same, le, stands, before) =
    (suc d, omega (arith, same), omega (arith, le), stands, later_none pattern xs x d e before)

step_lem :
    (b : Bool) (pattern xs : List ℕ) (x at : ℕ) (o : Option ℕ)
    → begins pattern (x ∷ xs) ≡ b
    → IsTested pattern xs (at + 1) o
    → IsTested pattern (x ∷ xs) at (if b then some at else o)
step_lem true pattern xs x at o e h =
    (0, omega arith, omega arith, e, λ j lt. absurd (omega (arith, lt)))
step_lem false pattern xs x at o e h = later_lem pattern xs x at o e h

strstr-IsTested : (pattern xs : List ℕ) (at : ℕ) → IsTested pattern xs at (strstr pattern xs at)
unfolding strstr
strstr-IsTested pattern [] at = end_lem (begins pattern []) pattern at refl
strstr-IsTested pattern (x ∷ xs) at =
    step_lem (begins pattern (x ∷ xs)) pattern xs x at (strstr pattern xs (at + 1)) refl
      (strstr-IsTested pattern xs (at + 1))

-- The text up to the NUL at a place of a block, where there is one further on.
abbrev pub Ends : Block → List ℕ → Type 0
Ends m text = up_to_nul m ≡ done text

ends_lem : (m : Block) (n : ℕ) → get_elem? m n ≡ some 0 → (text : List ℕ) × Ends m text
unfolding up_to_nul
ends_lem [] n h = ground (arith, h)
ends_lem (zero ∷ m) n h = ([], refl)
ends_lem (suc c ∷ m) zero h = ground (arith, h)
ends_lem (suc c ∷ m) (suc n) h = let (text, e) = ends_lem m n h in (suc c ∷ text, rw e refl)

get-drop : (m : Block) (i n : ℕ) → get_elem? (drop i m) n ≡ get_elem? m (i + n)
get-drop m zero n = let e : n ≡ 0 + n = omega arith in ap (get_elem? m) e
get-drop [] (suc i) n = refl
get-drop (x ∷ m) (suc i) n =
    let e : suc (i + n) ≡ suc i + n = omega arith in get-drop m i n ∙ ap (get_elem? (x ∷ m)) e

get-append : (xs ys : List ℕ) (c : ℕ) → get_elem? (xs ++ c ∷ ys) (length xs) ≡ some c
get-append [] ys c = refl
get-append (x ∷ xs) ys c = get-append xs ys c

get-overwrite : (m : Block) (i : ℕ) → i < length m → get_elem? (overwrite m i (0 ∷ [])) i ≡ some 0
get-overwrite m i h =
    subst (λ k. get_elem? (overwrite m i (0 ∷ [])) k ≡ some 0) (length-take i m (omega (arith, h)))
      (get-append (take i m) (drop (i + 1) m) 0)

take-begins : (pattern xs : List ℕ) → take (length pattern) xs ≡ pattern → begins pattern xs ≡ true
unfolding begins
take-begins [] xs h = refl
take-begins (p ∷ ps) [] h = ground (arith, ap length h)
take-begins (p ∷ ps) (x ∷ xs) h =
    rw ((==_iff p x).1 (sym (ap (λ ys. get_or ys 0 0) h))) (take-begins ps xs (ap (drop 1) h))

not_there :
    (pattern xs : List ℕ) → begins pattern xs ≡ false → ¬ (take (length pattern) xs ≡ pattern)
not_there pattern xs e h = ground (arith, e, take-begins pattern xs h)

tested_lem :
    (pattern xs : List ℕ) (at : ℕ) (o : Option ℕ)
    → IsTested pattern xs at o
    → IsPlace pattern xs at o
tested_lem pattern xs at none h = λ j le. not_there pattern (drop j xs) (h j le)
tested_lem pattern xs at (some k) (d, same, le, stands, before) = (
  d,
  same,
  le,
  begins-take pattern (drop d xs) stands,
  λ j lt. not_there pattern (drop j xs) (before j lt),
)

-- What Find leaves: the contents as they were, and the place in the text behind the offset.
pub record IsFound (pattern : List ℕ) (offset : ℕ) (b : Buffer) (r : Option ℕ × Buffer)
    : Type 0 where
  pub holds : Holds r.1 (bytes b)
  pub text : List ℕ
  pub at : up_to_nul (drop offset (memory r.1.block)) ≡ done text
  pub place : IsPlace pattern text offset r.0

find_lem :
    (pattern : List ℕ) (offset : ℕ) (b : Buffer) (m : Block)
    → b.block ≡ some m
    → b.size ≤ length m
    → b.tail < b.size
    → 0 < b.tail
    → offset ≤ b.tail
    → Returns (IsFound pattern offset b) (find pattern offset b)
unfolding find
find_lem pattern offset b m e fits inside some_text low =
    let ran = make_string-closed b m e fits inside in
    let same : offset + (b.tail - offset) ≡ b.tail = omega (arith, low) in
    let nul =
      get-drop (overwrite m b.tail (0 ∷ [])) offset (b.tail - offset)
      ∙ ap (get_elem? (overwrite m b.tail (0 ∷ []))) same
      ∙ get-overwrite m b.tail (omega (arith, fits, inside)) in
    let (text, ends) = ends_lem (drop offset (overwrite m b.tail (0 ∷ []))) (b.tail - offset) nul in
    let full : (b.tail == 0) ≡ false = ground (arith, some_text) in
    rw (full, ran, ends)
      (record {
        holds =
            subst (Holds (closed b m)) (ap (λ blk. content blk b.tail) (sym e))
              (closed-Holds b m fits inside);
        text = text;
        at = ends;
        place = tested_lem pattern text offset _ (strstr-IsTested pattern text offset);
      })

by_block :
    (pattern : List ℕ) (offset : ℕ) (b : Buffer) (blk : Option Block)
    → b.block ≡ blk
    → Held blk b.size b.tail
    → 0 < b.tail
    → offset ≤ b.tail
    → Returns (IsFound pattern offset b) (find pattern offset b)
by_block pattern offset b none e h some_text low = absurd (omega (arith, h.1, some_text))
by_block pattern offset b (some m) e h some_text low =
    find_lem pattern offset b m e h.0 h.1 some_text low

-- On a sound buffer with contents, from an offset up to the tail, Find returns and keeps the
-- contents. The text from the offset ends in memory, and the result is the first place there at
-- which the whole pattern stands, or -1 if there is none.
pub find-IsFound :
    (pattern : List ℕ) (offset : ℕ) (b : Buffer)
    → IsValid b
    → 0 < b.tail
    → offset ≤ b.tail
    → Returns (IsFound pattern offset b) (find pattern offset b)
find-IsFound pattern offset b v some_text low =
    by_block pattern offset b b.block refl v.held some_text low
