-- ===== src/Buffer/Search/Binary.antt =====
-- BinaryFind finds the first place of a pattern, as Find does on a text without a NUL.
use msg_courier.Prelude.{
  ℕ, zero, suc, ◌+◌, ◌≤◌, ◌<◌, ◌≡◌, refl, sym, ap, ◌∙◌, false, inl, inr, Bool-cases, some, List, [],
  ◌∷◌, ◌==◌, ltb, take, drop, length, get_elem?, in_range, arith,
}
use msg_courier.Memory.{done, Block}
use msg_courier.Buffer.{Buffer, memory}
use msg_courier.Buffer.Append.{Holds}
use msg_courier.Buffer.Insert.{memory_lem}
use msg_courier.Buffer.Search.{begins, strstr, matches_at, binary_loop, binary_find}
use msg_courier.Buffer.Search.Places.{strstr-here, strstr-later}
use msg_courier.Buffer.Copy.{length-bytes}

get-take : (m : Block) (n i : ℕ) → i < n → get_elem? (take n m) i ≡ get_elem? m i
get-take m zero i h = absurd (omega arith)
get-take [] (suc n) i h = refl
get-take (x ∷ m) (suc n) zero h = refl
get-take (x ∷ m) (suc n) (suc i) h = get-take m n i (omega arith)

drop-get : (xs : List ℕ) (i c : ℕ) → get_elem? xs i ≡ some c → drop i xs ≡ c ∷ drop (suc i) xs
drop-get [] i c h = cc
drop-get (x ∷ xs) zero c h = cc
drop-get (x ∷ xs) (suc i) c h = drop-get xs i c h

strstr-le : (pattern xs : List ℕ) (at k : ℕ) → strstr pattern xs at ≡ some k → at ≤ k
unfolding strstr
strstr-le pattern [] at k e = ground (arith, e)
strstr-le pattern (x ∷ xs) at k e = ground (arith, e, strstr-le pattern xs (at + 1) k)

module _ (m : Block) (xs : List ℕ) (front : take (length xs) m ≡ xs) where
  matches_at-begins :
      (ps : List ℕ) (i : ℕ)
      → i + length ps ≤ length xs
      → matches_at m i ps ≡ done (begins ps (drop i xs))
  unfolding matches_at begins
  matches_at-begins [] i h = refl
  matches_at-begins (p ∷ ps) i h =
      let (c, at) = in_range xs i (omega (arith, h)) in
      let at' =
        sym (get-take m (length xs) i (omega (arith, h))) ∙ ap (λ ys. get_elem? ys i) front ∙ at in
      let next : suc i ≡ i + 1 = omega arith in
      let rest = matches_at-begins ps (i + 1) (omega (arith, h)) in
      rw (drop-get xs i c at, next, at', matches_at)
        (elim (Bool-cases (p == c)) [ inl e ↦ rw e rest | inr e ↦ rw e refl ])

  binary_loop-strstr :
      (pattern : List ℕ) (i rounds k : ℕ)
      → 0 < length pattern
      → strstr pattern (drop i xs) i ≡ some k
      → k + length pattern ≤ length xs
      → k < i + rounds
      → binary_loop m i rounds pattern ≡ done (some k)
  unfolding binary_loop
  binary_loop-strstr pattern i zero k pos e fits h =
      absurd (omega (arith, h, strstr-le pattern (drop i xs) i k e))
  binary_loop-strstr pattern i (suc rounds) k pos e fits h =
      let low = strstr-le pattern (drop i xs) i k e in
      let here = matches_at-begins pattern i (omega (arith, low, fits)) in
      let (c, at) = in_range xs i (omega (arith, low, fits, pos)) in
      let tail = drop-get xs i c at in
      elim (Bool-cases (begins pattern (drop i xs))) [
        | inl b ↦ rw (here, b) (ap done (sym (strstr-here pattern (drop i xs) i b) ∙ e))
        | inr b ↦
            let next : suc i ≡ i + 1 = omega arith in
            let later =
              sym (strstr-later pattern (drop (suc i) xs) c i (sym (ap (begins pattern) tail) ∙ b))
              ∙ sym (ap (λ ys. strstr pattern ys i) tail)
              ∙ e in
            rw (here, b)
              (binary_loop-strstr pattern (i + 1) rounds k pos
                (ap (λ j. strstr pattern (drop j xs) (i + 1)) (sym next) ∙ later) fits
                (omega (arith, h)))
      ]

-- Where the contents have the pattern, BinaryFind from the start returns its first place.
pub binary_find-done :
    (pattern : List ℕ) (b : Buffer) (xs : List ℕ) (k : ℕ)
    → Holds b xs
    → 0 < length pattern
    → strstr pattern xs 0 ≡ some k
    → k + length pattern ≤ length xs
    → binary_find 0 pattern b ≡ done (some k)
unfolding binary_find
binary_find-done pattern b xs k h pos e fits =
    let m = memory_lem b h.valid in
    let t = length-bytes b xs h in
    let full : (b.tail == 0) ≡ false = ground (arith, t, fits, pos) in
    let front = ap (λ n. take n (memory b.block)) t ∙ sym m.shows ∙ h.stands_for in
    let low : ltb b.tail 0 ≡ false = ground arith in
    rw (full, low)
      (binary_loop-strstr (memory b.block) xs front pattern 0 b.tail k pos e fits
        (omega (arith, t, fits, pos)))
