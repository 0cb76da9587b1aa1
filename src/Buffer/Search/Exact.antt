-- ===== src/Buffer/Search/Exact.antt =====
-- What Find and BinaryFind answer on a buffer with known contents.
use msg_courier.Prelude.{
  ℕ, zero, suc, ◌+◌, ◌≤◌, ◌<◌, ◌≡◌, refl, ap, ◌∙◌, subst, false, Option, none, some, List, [], ◌∷◌,
  ◌++◌, ◌==◌, take, drop, length, length-take, arith, All,
}
use msg_courier.Memory.{done, ◌>>=◌, Block, overwrite, read}
use msg_courier.Buffer.{Buffer, content, memory}
use msg_courier.Buffer.Append.{Holds, closed, make_string-closed, closed-Holds}
use msg_courier.Buffer.Copy.{length-bytes, read-slice}
use msg_courier.Buffer.Valid.{Held}
use msg_courier.Buffer.Search.{strstr, up_to_nul, find}

-- The bytes before the first NUL.
abbrev pub c_str : List ℕ → List ℕ
c_str [] = []
c_str (zero ∷ xs) = []
c_str (suc c ∷ xs) = suc c ∷ c_str xs

pub c_str-append : (xs ys : List ℕ) → All (λ x. ¬ (x ≡ 0)) xs → c_str (xs ++ ys) ≡ xs ++ c_str ys
c_str-append [] ys h = refl
c_str-append (zero ∷ xs) ys h = absurd (h.0 refl)
c_str-append (suc c ∷ xs) ys h = rw (c_str-append xs ys h.1)

up_to_nul-c_str : (xs junk : List ℕ) → up_to_nul (xs ++ (0 ∷ junk)) ≡ done (c_str xs)
unfolding up_to_nul
up_to_nul-c_str [] junk = refl
up_to_nul-c_str (zero ∷ xs) junk = refl
up_to_nul-c_str (suc c ∷ xs) junk = rw (up_to_nul-c_str xs junk, ◌>>=◌)

pub drop-append_le : (n : ℕ) (xs ys : List ℕ) → n ≤ length xs → drop n (xs ++ ys) ≡ drop n xs ++ ys
drop-append_le zero xs ys h = refl
drop-append_le (suc n) [] ys h = absurd (omega arith)
drop-append_le (suc n) (x ∷ xs) ys h = drop-append_le n xs ys (omega arith)

by_block :
    (pattern : List ℕ) (offset : ℕ) (b : Buffer) (blk : Option Block)
    → b.block ≡ blk
    → Held blk b.size b.tail
    → 0 < b.tail
    → offset ≤ b.tail
    → (b' : Buffer) × (find pattern offset b
        ≡ done (strstr pattern (c_str (drop offset (content blk b.tail))) offset, b'))
      × Holds b' (content blk b.tail)
unfolding find
by_block pattern offset b none e h some_text low = absurd (omega (arith, h.1, some_text))
by_block pattern offset b (some m) e h some_text low =
    let ran = make_string-closed b m e h.0 h.1 in
    let full : (b.tail == 0) ≡ false = ground (arith, some_text) in
    let text : up_to_nul (drop offset (overwrite m b.tail (0 ∷ [])))
        ≡ done (c_str (drop offset (take b.tail m))) =
      ap up_to_nul (
        drop-append_le offset (take b.tail m) (0 ∷ drop (b.tail + 1) m)
          (omega (arith, low, length-take b.tail m (omega (arith, h.0, h.1)))))
      ∙ up_to_nul-c_str (drop offset (take b.tail m)) (drop (b.tail + 1) m) in
    (closed b m, rw (full, ran, text) refl, closed-Holds b m h.0 h.1)

-- Find searches the text from the offset up to its first NUL, and keeps the contents.
pub find-done :
    (pattern : List ℕ) (offset : ℕ) (b : Buffer) (xs : List ℕ)
    → Holds b xs
    → 0 < length xs
    → offset ≤ length xs
    → (b' : Buffer) × (find pattern offset b
        ≡ done (strstr pattern (c_str (drop offset xs)) offset, b'))
      × Holds b' xs
find-done pattern offset b xs h pos low =
    let n = length-bytes b xs h in
    subst
      (λ ys.
        (b' : Buffer) × (find pattern offset b
          ≡ done (strstr pattern (c_str (drop offset ys)) offset, b'))
        × Holds b' ys)
      h.stands_for
      (by_block pattern offset b b.block refl h.valid.held (omega (arith, n, pos))
        (omega (arith, n, low)))

-- The first bytes of the contents, read from the buffer's memory.
pub read-front :
    (b : Buffer) (xs : List ℕ) (n : ℕ)
    → Holds b xs
    → n ≤ length xs
    → read (memory b.block) 0 n ≡ done (take n xs)
read-front b xs n h le = read-slice b xs 0 n h (omega (arith, le))
