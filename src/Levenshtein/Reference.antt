-- ===== src/Levenshtein/Reference.antt =====
-- The distance by recursion on the lengths of the two prefixes.
use msg_courier.Prelude.{ℕ, zero, suc, ◌+◌, List, min, get_or}
use msg_courier.Levenshtein.{differs}

abbrev pub char_at : List ℕ → ℕ → ℕ
char_at xs i = get_or xs i 0

-- The entries are compared from the first on; transposition reaches back two places, and not to
-- the start.
module _ (source target : List ℕ) where
  unfoldable mutual
    pub dist : ℕ → ℕ → ℕ
    dist zero j = j
    dist (suc i) zero = suc i
    dist (suc i) (suc j) = swapped i j (
        min (dist i (suc j) + 1)
          (min (dist (suc i) j + 1) (dist i j + differs (char_at source i) (char_at target j))))

    -- The better of a cost and that of a transposition of the two last entries.
    pub swapped : ℕ → ℕ → ℕ → ℕ
    swapped zero j best = best
    swapped (suc i) zero best = best
    swapped (suc zero) (suc j) best = best
    swapped (suc (suc i)) (suc zero) best = best
    swapped (suc (suc i)) (suc (suc j)) best =
        min
          (dist (suc i) (suc j)
            + 1
            + differs (char_at source (suc i)) (char_at target (suc (suc j)))
            + differs (char_at source (suc (suc i))) (char_at target (suc j)))
          best
