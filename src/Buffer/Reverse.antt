-- ===== src/Buffer/Reverse.antt =====
-- ReverseFindChar of buffer.cpp: it begins at the tail itself, where the NUL stands, or at iStart.
use msg_courier.Prelude.{
  in_range, ℕ, zero, suc, ◌≤◌, ◌<◌, ◌≡◌, ◌≢◌, ap, ◌∙◌, subst, inl, inr, true, false, Bool-cases,
  ==_iff, ◌==◌, Option, none, some, arith, get_elem?, length,
}
use msg_courier.Memory.{Outcome, done, fault, Block, Returns, Returns-map}
use msg_courier.Buffer.{Buffer, memory}

-- The loop, with the places that are left: it looks at the last of them first.
unfoldable pub reverse_from : Block → ℕ → ℕ → Outcome (Option ℕ)
reverse_from m ch zero = done none
reverse_from m ch (suc i) = elim (get_elem? m i) [
  | none ↦ fault
  | some c ↦ elim (c == ch) [ true ↦ done (some i) | false ↦ reverse_from m ch i ]
]

abbrev pub start_or : Option ℕ → ℕ → ℕ
start_or none tail = tail
start_or (some start) tail = start

-- none is -1, for the start and for the answer.
unfoldable pub reverse_find_char : ℕ → Option ℕ → Buffer → Outcome (Option ℕ)
unfolding reverse_from
reverse_find_char ch start b = reverse_from (memory b.block) ch (suc (start_or start b.tail))

-- The character stands nowhere behind a place, up to the start.
abbrev pub IsLast : Block → ℕ → ℕ → Option ℕ → Type 0
IsLast m ch n none = (j : ℕ) → j < n → get_elem? m j ≢ some ch
IsLast m ch n (some i) =
    (i < n) × (get_elem? m i ≡ some ch) × ((j : ℕ) → i < j → j < n → get_elem? m j ≢ some ch)

module _ (m : Block) (ch : ℕ) where
  one_more :
      (n c : ℕ) (o : Option ℕ)
      → get_elem? m n ≡ some c
      → (c == ch) ≡ false
      → IsLast m ch n o
      → IsLast m ch (suc n) o
  one_more n c o at other = by_answer o
    where
      not_here : (j : ℕ) → (j == n) ≡ true → get_elem? m j ≢ some ch
      not_here j same e =
          ground (arith, subst (λ k. get_elem? m k ≡ some ch) ((==_iff j n).0 same) e, at, other)

      by_answer : (o : Option ℕ) → IsLast m ch n o → IsLast m ch (suc n) o
      by_answer none h = λ j lt. elim (Bool-cases (j == n)) [
        | inl same ↦ not_here j same
        | inr apart ↦ h j (ground (arith, apart, lt))
      ]
      by_answer (some i) h = (
        omega (arith, h.0),
        h.1,
        λ j low lt. elim (Bool-cases (j == n)) [
          | inl same ↦ not_here j same
          | inr apart ↦ h.2 j low (ground (arith, apart, lt))
        ],
      )

  reverse_from-IsLast : (n : ℕ) → n ≤ length m → Returns (IsLast m ch n) (reverse_from m ch n)
  unfolding reverse_from
  reverse_from-IsLast zero h = λ j lt. absurd (omega (arith, lt))
  reverse_from-IsLast (suc n) h =
      let (c, at) = in_range m n (omega (arith, h)) in
      rw (at, reverse_from)
        (elim (Bool-cases (c == ch)) [
          | inl e ↦ rw e (
            omega arith,
            at ∙ ap some ((==_iff c ch).0 e),
            λ j low lt. absurd (omega (arith, low, lt)),
          )
          | inr e ↦ rw e (
              Returns-map _ _ (reverse_from m ch n) (reverse_from-IsLast n (omega (arith, h)))
                (λ o last. one_more n c o at e last))
        ])

-- From a place inside the block, ReverseFindChar returns: the last place up to it at which the
-- character stands, or -1 if there is none.
pub reverse_find_char-IsLast :
    (ch : ℕ) (start : Option ℕ) (b : Buffer)
    → start_or start b.tail < length (memory b.block)
    → Returns
        (IsLast (memory b.block) ch (suc (start_or start b.tail)))
        (reverse_find_char ch start b)
unfolding reverse_find_char
reverse_find_char-IsLast ch start b h =
    reverse_from-IsLast (memory b.block) ch (suc (start_or start b.tail)) (omega (arith, h))
