-- ===== src/Levenshtein/Filling.antt =====
-- The matrix holds the distances of all pairs of prefixes.
use msg_courier.Prelude.{
  ℕ, zero, suc, ◌+◌, ◌-◌, ◌≤◌, ◌<◌, ◌≡◌, ◌≢◌, refl, sym, ap, ap₂, ◌∙◌, true, ◌&&◌, some, List,
  arith, min, ltb, length, ◌⊎◌, inl, inr, Bool-cases, ◌==◌, ==_iff, if◌then◌else◌,
}
use native.Mathlib.Numerals.{sub-one}
use msg_courier.Memory.{done, ◌>>=◌, Returns, Returns-map}
use msg_courier.Memory.Vector.{at_entry}
use msg_courier.Levenshtein.{Matrix, set_cell, differs, transposed, fill_cell}
use msg_courier.Levenshtein.Reference.{char_at, dist, swapped}
use msg_courier.Levenshtein.Matrix.{peek, cell-done, Written, set_cell-Written}

same_cell : (k l i j : ℕ) → ((k ≡ i) × (l ≡ j)) ⊎ ((k ≢ i) ⊎ (l ≢ j))
same_cell k l i j = elim (Bool-cases (k == i)) [
  | inr e ↦ inr (inl (λ q. ground (arith, e, q)))
  | inl e ↦ elim (Bool-cases (l == j)) [
    | inr f ↦ inr (inr (λ q. ground (arith, f, q)))
    | inl f ↦ inl ((==_iff k i).0 e, (==_iff l j).0 f)
  ]
]

back_two : (i : ℕ) → suc (suc (suc i)) - 2 ≡ suc i
back_two i = omega arith

min_if : (a b : ℕ) → (if ltb a b then a else b) ≡ min a b
min_if a b = ground arith

-- The cells that hold their distance before a round of each loop.
abbrev pub Edge : ℕ → ℕ → ℕ → Type 0
Edge k i j = (j ≡ 0) × (i < k)

abbrev pub Edges : ℕ → ℕ → ℕ → Type 0
Edges k i j = (j ≡ 0) ⊎ ((i ≡ 0) × (j < k))

abbrev pub Rows : ℕ → ℕ → ℕ → Type 0
Rows r i j = (j ≡ 0) ⊎ (i < r)

abbrev pub Cells : ℕ → ℕ → ℕ → ℕ → Type 0
Cells r c i j = (j ≡ 0) ⊎ (i < r) ⊎ ((i ≡ r) × (j < c))

module _ (source target : List ℕ) where
  abbrev pub d : ℕ → ℕ → ℕ
  d = dist source target

  -- All cells are there, and those of the set hold their distance.
  pub record Filled (K : ℕ → ℕ → Type 0) (m : Matrix) : Type 0 where
    pub sized : (i j : ℕ) → i ≤ length source → j ≤ length target → (v : ℕ) × (peek m i j ≡ some v)
    pub known :
        (i j : ℕ) → i ≤ length source → j ≤ length target → K i j → peek m i j ≡ some (d i j)

  -- One more cell.
  pub set_cell-Filled :
      (K K' : ℕ → ℕ → Type 0) (i j : ℕ) (m : Matrix)
      → Filled K m
      → i ≤ length source
      → j ≤ length target
      → ((k l : ℕ) → K' k l → (k ≢ i) ⊎ (l ≢ j) → K k l)
      → Returns (Filled K') (set_cell i j (d i j) m)
  set_cell-Filled K K' i j m f hi hj grows =
      let (u, e) = f.sized i j hi hj in
      Returns-map (Written m i j (d i j)) (Filled K') (set_cell i j (d i j) m)
        (set_cell-Written m i j (d i j) u e)
        λ m' w. record {
          sized = λ k l hk hl. elim (same_cell k l i j) [
            | inl (p, q) ↦ (d i j, cell_at m' w k l p q)
            | inr ne ↦ let (v, e') = f.sized k l hk hl in (v, w.others k l ne ∙ e')
          ];
          known = λ k l hk hl h. elim (same_cell k l i j) [
            | inl (p, q) ↦ cell_at m' w k l p q ∙ ap₂ (λ x y. some (d x y)) (sym p) (sym q)
            | inr ne ↦ w.others k l ne ∙ f.known k l hk hl (grows k l h ne)
          ];
        }
    where
      cell_at :
          (m' : Matrix)
          → Written m i j (d i j) m'
          → (k l : ℕ) → k ≡ i
          → l ≡ j
          → peek m' k l ≡ some (d i j)
      cell_at m' w k l p q = ap₂ (peek m') p q ∙ w.here

  pub d-zero : (i : ℕ) → d i 0 ≡ i
  unfolding dist
  d-zero zero = refl
  d-zero (suc i) = refl

  pub d-first : (j : ℕ) → d 0 j ≡ j
  unfolding dist
  d-first j = refl

  abbrev best_of : ℕ → ℕ → ℕ
  best_of i j =
      min (d i (suc j) + 1)
        (min (d (suc i) j + 1) (d i j + differs (char_at source i) (char_at target j)))

  d-step : (i j : ℕ) → d (suc i) (suc j) ≡ swapped source target i j (best_of i j)
  unfolding dist
  d-step i j = refl

  -- Step 6A picks the better cost, from two places back.
  transposed-swapped :
      (i j : ℕ) (m : Matrix)
      → Filled (Cells (suc i) (suc j)) m
      → i < length source
      → j < length target
      → (if ltb 2 (suc i) && ltb 2 (suc j)
          then transposed source target
              (suc i)
              (suc j)
              m
              (char_at source i)
              (char_at target j)
              (best_of i j)
          else done (best_of i j))
        ≡ done (swapped source target i j (best_of i j))
  unfolding swapped transposed
  transposed-swapped zero j m f hi hj = refl
  transposed-swapped (suc i) zero m f hi hj = ground arith
  transposed-swapped (suc zero) (suc j) m f hi hj = refl
  transposed-swapped (suc (suc i)) (suc zero) m f hi hj = ground arith
  transposed-swapped (suc (suc i)) (suc (suc j)) m f hi hj =
      let tested : (ltb 2 (suc (suc (suc i))) && ltb 2 (suc (suc (suc j)))) ≡ true = ground arith in
      simp
        (
          tested,
          back_two i,
          back_two j,
          cell-done m (suc i) (suc j) _
              (f.known (suc i) (suc j) (omega arith) (omega arith) (inr (inl (omega arith)))),
          at_entry source (suc i) (omega arith),
          at_entry target (suc j) (omega arith),
        )
        (ap done (min_if _ _))

  module _ (i j : ℕ) (m : Matrix) (f : Filled (Cells (suc i) (suc j)) m) (hi : i < length source)
      (hj : j < length target) where
    pub fill_cell-dist :
        fill_cell source target (suc i) (suc j) m ≡ set_cell (suc i) (suc j) (d (suc i) (suc j)) m
    unfolding fill_cell
    fill_cell-dist =
        simp
          (
            sub-one,
            at_entry source i hi,
            at_entry target j hj,
            cell-done m i (suc j) _
                (f.known i (suc j) (omega arith) (omega arith) (inr (inl (omega arith)))),
            cell-done m (suc i) j _
                (f.known (suc i) j (omega arith) (omega arith) (inr (inr (refl, omega arith)))),
            cell-done m i j _ (f.known i j (omega arith) (omega arith) (inr (inl (omega arith)))),
          )
          (ap (λ o. o >>= λ v. set_cell (suc i) (suc j) v m) (transposed-swapped i j m f hi hj)
            ∙ ap (λ v. set_cell (suc i) (suc j) v m) (sym (d-step i j)))
