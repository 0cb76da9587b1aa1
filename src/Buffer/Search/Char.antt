-- ===== src/Buffer/Search/Char.antt =====
-- FindChar answers with the first place of a character.
use msg_courier.Prelude.{
  in_range, ℕ, zero, suc, ◌+◌, ◌-◌, ◌≤◌, ◌<◌, ◌≡◌, ◌≢◌, refl, ◌∙◌, ap, subst, inl, inr, true, false,
  Bool, Bool-cases, ==_iff, ◌==◌, Option, none, some, arith, get_elem?, length,
}
use msg_courier.Memory.{done, Block, Returns, Returns-map}
use msg_courier.Buffer.{Buffer, memory, find_from, find_char}
use msg_courier.Buffer.Valid.{IsValid}
use msg_courier.Buffer.Insert.{memory_lem}

-- The character does not stand between the two places.
abbrev pub NotIn : Block → ℕ → ℕ → ℕ → Type 0
NotIn m ch from to = (j : ℕ) → from ≤ j → j < to → get_elem? m j ≢ some ch

abbrev pub IsFirst : Block → ℕ → ℕ → ℕ → Option ℕ → Type 0
IsFirst m ch from to none = NotIn m ch from to
IsFirst m ch from to (some i) =
    (from ≤ i) × (i < to) × (get_elem? m i ≡ some ch) × NotIn m ch from i

module _ (m : Block) (ch : ℕ) where
  -- A place before those that the rest of the loop looks at.
  widen-NotIn :
      (i to c : ℕ) → get_elem? m i ≡ some c → c ≢ ch → NotIn m ch (i + 1) to → NotIn m ch i to
  widen-NotIn i to c at other h j low high e = elim (Bool-cases (j == i)) [
    | inl same ↦
        ground (arith, other, at, subst (λ k. get_elem? m k ≡ some ch) ((==_iff j i).0 same) e)
    | inr apart ↦ h j (ground (arith, apart, low)) high e
  ]

  widen :
      (i to c : ℕ) (o : Option ℕ)
      → get_elem? m i ≡ some c
      → c ≢ ch
      → IsFirst m ch (i + 1) to o
      → IsFirst m ch i to o
  widen i to c none at other h = widen-NotIn i to c at other h
  widen i to c (some k) at other h = (omega (arith, h.0), h.1, h.2, widen-NotIn i k c at other h.3)

  -- One round, by whether the character is there.
  round_lem :
      (i rounds c : ℕ) (b : Bool)
      → (c == ch) ≡ b
      → get_elem? m i ≡ some c
      → Returns (IsFirst m ch (i + 1) (i + 1 + rounds)) (find_from m ch (i + 1) rounds)
      → Returns
          (IsFirst m ch i (i + suc rounds))
          (elim b [ true ↦ done (some i) | false ↦ find_from m ch (i + 1) rounds ])
  round_lem i rounds c true e at h = (
    omega arith,
    omega arith,
    at ∙ ap some ((==_iff c ch).0 e),
    λ j low high. absurd (omega (arith, low, high)),
  )
  round_lem i rounds c false e at h = Returns-map _ _ (find_from m ch (i + 1) rounds) h (λ o first.
      subst (λ to. IsFirst m ch i to o) (omega arith)
        (widen i (i + 1 + rounds) c o at (λ same. ground (arith, e, (==_iff c ch).1 same)) first))

  find_from-IsFirst :
      (i rounds : ℕ)
      → i + rounds ≤ length m
      → Returns (IsFirst m ch i (i + rounds)) (find_from m ch i rounds)
  unfolding find_from
  find_from-IsFirst i zero h = λ j low high. absurd (omega (arith, low, high))
  find_from-IsFirst i (suc rounds) h =
      let (c, at) = in_range m i (omega (arith, h)) in
      rw (at, find_from)
        (round_lem i rounds c (c == ch) refl at
          (find_from-IsFirst (i + 1) rounds (omega (arith, h))))

-- On a sound buffer, from a place up to the tail, FindChar returns: the first place from there at
-- which the character stands before the tail, or -1 if there is none.
pub find_char-IsFirst :
    (ch start : ℕ) (b : Buffer)
    → IsValid b
    → start ≤ b.tail
    → Returns (IsFirst (memory b.block) ch start b.tail) (find_char ch start b)
unfolding find_char
find_char-IsFirst ch start b v h =
    let m = memory_lem b v in
    subst
      (λ to.
        Returns (IsFirst (memory b.block) ch start to)
          (find_from (memory b.block) ch start (b.tail - start)))
      (omega (arith, h))
      (find_from-IsFirst (memory b.block) ch start (b.tail - start) (omega (arith, h, m.within)))
