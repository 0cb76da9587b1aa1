-- ===== src/Levenshtein.antt =====
-- levenshtein.cpp: cLevenshtein::distance. The matrix is a vector of vectors; an index that it does
-- not have is undefined behaviour. The ints are taken for numbers: none exceeds the lengths' sum.
-- The matrix is taken to be allocated: the catch, after which 0 is returned, is left out.
pub mod Reference
pub mod Matrix
pub mod Filling
pub mod Rows
pub mod Symmetric
use msg_courier.Prelude.{
  ℕ, zero, suc, ◌+◌, ◌-◌, Bool, true, false, ◌&&◌, Option, none, some, List, [], ◌∷◌, min, ltb,
  ◌==◌, if◌then◌else◌, length, get_elem?, replicate,
}
use msg_courier.Memory.{Outcome, done, fault, ◌>>=◌}
use msg_courier.Memory.Vector.{at, store}

abbrev pub Matrix : Type 0
Matrix = List (List ℕ)

unfoldable pub cell : Matrix → ℕ → ℕ → Outcome ℕ
unfolding at
cell m i j = do row ← at m i; at row j

unfoldable pub set_cell : ℕ → ℕ → ℕ → Matrix → Outcome Matrix
unfolding at store
set_cell i j v m = do row ← at m i; row' ← store row j v; store m i row'

-- for (k = i; k < i + rounds; k++)
unfoldable pub for {ℓ} : {S : Type ℓ} → ℕ → ℕ → (ℕ → S → Outcome S) → S → Outcome S
for zero i body s = done s
for (suc n) i body s = do s' ← body i s; for n (suc i) body s'

abbrev pub differs : ℕ → ℕ → ℕ
differs a b = if a == b then 0 else 1

-- Step 6A, with the cell of step 6.
unfoldable pub transposed : List ℕ → List ℕ → (i j : ℕ) → Matrix → (s t best : ℕ) → Outcome ℕ
unfolding cell at
transposed source target i j m s t best = do
  corner ← cell m (i - 2) (j - 2)
  s' ← at source (i - 2)
  t' ← at target (j - 2)
  let trans = corner + 1 + differs s' t + differs s t'
  done (if ltb trans best then trans else best)

unfoldable pub fill_cell : List ℕ → List ℕ → (i j : ℕ) → Matrix → Outcome Matrix
unfolding cell at set_cell transposed
fill_cell source target i j m = do
  s ← at source (i - 1)
  t ← at target (j - 1)
  above ← cell m (i - 1) j
  left ← cell m i (j - 1)
  diag ← cell m (i - 1) (j - 1)
  let best = min (above + 1) (min (left + 1) (diag + differs s t))
  v ← if ltb 2 i && ltb 2 j then transposed source target i j m s t best else done best
  set_cell i j v m

unfoldable pub number_rows : List ℕ → Matrix → Outcome Matrix
unfolding for set_cell
number_rows source m = for (suc (length source)) 0 (λ i m. set_cell i 0 i m) m

unfoldable pub number_columns : List ℕ → Matrix → Outcome Matrix
unfolding for set_cell
number_columns target m = for (suc (length target)) 0 (λ j m. set_cell 0 j j m) m

unfoldable pub fill_row : List ℕ → List ℕ → ℕ → Matrix → Outcome Matrix
unfolding for fill_cell
fill_row source target i m = for (length target) 1 (fill_cell source target i) m

unfoldable pub fill_rows : List ℕ → List ℕ → Matrix → Outcome Matrix
unfolding for fill_row
fill_rows source target m = for (length source) 1 (fill_row source target) m

unfoldable pub fill_matrix : List ℕ → List ℕ → Matrix → Outcome Matrix
unfolding number_rows number_columns fill_rows
fill_matrix source target m = do
  m₁ ← number_rows source m
  m₂ ← number_columns target m₁
  fill_rows source target m₂

unfoldable pub distance : List ℕ → List ℕ → Outcome ℕ
unfolding fill_matrix cell
distance [] target = done (length target)
distance (s ∷ source) [] = done (length (s ∷ source))
distance (s ∷ source) (t ∷ target) = do
  m ←
      fill_matrix (s ∷ source) (t ∷ target)
        (replicate (suc (length (s ∷ source))) (replicate (suc (length (t ∷ target))) 0))
  cell m (length (s ∷ source)) (length (t ∷ target))
