-- ===== src/Levenshtein/Rows.antt =====
-- The loops that fill the matrix, and the distance that is read off at the end.
use msg_courier.Prelude.{
  ℕ, zero, suc, ◌≤◌, ◌<◌, ◌≡◌, refl, ap, ◌∙◌, subst, List, [], ◌∷◌, arith, length, replicate, inr,
}
use msg_courier.Memory.{done, ◌>>=◌, Returns, Returns-bind, Returns-map, Returns-then}
use msg_courier.Levenshtein.{
  Matrix, cell, set_cell, fill_cell, number_rows, number_columns, fill_row, fill_rows, fill_matrix,
  distance,
}
use msg_courier.Levenshtein.Reference.{dist}
use msg_courier.Levenshtein.Matrix.{peek_row, cell-done, for-Returns, get_elem?-replicate}
use msg_courier.Levenshtein.Filling.{
  Filled, set_cell-Filled, d-zero, d-first, Edge, Edges, Rows, Cells, fill_cell-dist,
}

module _ (source target : List ℕ) where
  -- Less is known of the cells.
  Filled-sub :
      (K K' : ℕ → ℕ → Type 0) (m : Matrix)
      → ((i j : ℕ) → i ≤ length source → j ≤ length target → K' i j → K i j)
      → Filled source target K m
      → Filled source target K' m
  Filled-sub K K' m h f = record {
    sized = f.sized;
    known = λ i j hi hj k. f.known i j hi hj (h i j hi hj k);
  }

  number_rows-Filled :
      (m : Matrix)
      → Filled source target (Edge 0) m
      → Returns (Filled source target (Edge (suc (length source)))) (number_rows source m)
  unfolding number_rows
  number_rows-Filled m f =
      for-Returns (λ i. Filled source target (Edge i)) (suc (length source)) _ (suc (length source))
        0 m (omega arith)
        (λ i m lo hi f.
          subst (λ v. Returns (Filled source target (Edge (suc i))) (set_cell i 0 v m))
            (d-zero source target i)
            (set_cell-Filled source target (Edge i) (Edge (suc i)) i 0 m f (omega arith)
              (omega arith) (λ k l h ne. ground (arith, h, ne))))
        f

  number_columns-Filled :
      (m : Matrix)
      → Filled source target (Edges 0) m
      → Returns (Filled source target (Edges (suc (length target)))) (number_columns target m)
  unfolding number_columns
  number_columns-Filled m f =
      for-Returns (λ j. Filled source target (Edges j)) (suc (length target)) _
        (suc (length target)) 0 m (omega arith)
        (λ j m lo hj f.
          subst (λ v. Returns (Filled source target (Edges (suc j))) (set_cell 0 j v m))
            (d-first source target j)
            (set_cell-Filled source target (Edges j) (Edges (suc j)) 0 j m f (omega arith)
              (omega arith) (λ k l h ne. ground (arith, h, ne))))
        f

  fill_cell-Filled :
      (i j : ℕ) (m : Matrix)
      → i < length source
      → 1 ≤ j
      → j < suc (length target)
      → Filled source target (Cells (suc i) j) m
      → Returns (Filled source target (Cells (suc i) (suc j))) (fill_cell source target (suc i) j m)
  fill_cell-Filled i zero m hi lo hj f = absurd (omega arith)
  fill_cell-Filled i (suc j) m hi lo hj f =
      rw (fill_cell-dist source target i j m f hi (omega arith)) (
        set_cell-Filled source target (Cells (suc i) (suc j)) (Cells (suc i) (suc (suc j))) (suc i)
          (suc j) m f (omega arith) (omega arith) (λ k l h ne. ground (arith, h, ne)))

  fill_row-Filled :
      (i : ℕ) (m : Matrix)
      → 1 ≤ i
      → i < suc (length source)
      → Filled source target (Rows i) m
      → Returns (Filled source target (Rows (suc i))) (fill_row source target i m)
  unfolding fill_row
  fill_row-Filled zero m lo hi f = absurd (omega arith)
  fill_row-Filled (suc i) m lo hi f =
      Returns-map (Filled source target (Cells (suc i) (suc (length target)))) _
        (fill_row source target (suc i) m)
        (for-Returns (λ j. Filled source target (Cells (suc i) j)) (suc (length target)) _
          (length target) 1 m (omega arith)
          (λ j t lo hj g. fill_cell-Filled i j t (omega arith) lo hj g)
          (Filled-sub _ (Cells (suc i) 1) m (λ k l hk hl h. ground (arith, h)) f))
        (λ m'. Filled-sub _ (Rows (suc (suc i))) m' (λ k l hk hl h. ground (arith, h)))

  matrix-Filled :
      (m : Matrix)
      → Filled source target (Edge 0) m
      → Returns (Filled source target (Rows (suc (length source)))) (fill_matrix source target m)
  unfolding fill_matrix fill_rows
  matrix-Filled m f =
      Returns-bind (Filled source target (Edge (suc (length source)))) _ (number_rows source m) _
        (number_rows-Filled m f)
        λ m₁ f₁.
          Returns-bind (Filled source target (Edges (suc (length target))))
            (Filled source target (Rows (suc (length source)))) (number_columns target m₁) _
            (number_columns-Filled m₁
              (Filled-sub _ (Edges 0) m₁ (λ k l hk hl h. ground (arith, h)) f₁))
            λ m₂ f₂.
              for-Returns (λ r. Filled source target (Rows r)) (suc (length source)) _
                (length source) 1 m₂ (omega arith) (λ i t lo hi g. fill_row-Filled i t lo hi g)
                (Filled-sub _ (Rows 1) m₂ (λ k l hk hl h. ground (arith, h)) f₂)

  fresh-Filled :
      Filled source target
        (Edge 0)
        (replicate (suc (length source)) (replicate (suc (length target)) 0))
  fresh-Filled = record {
    sized = λ i j hi hj. (
      0,
      ap (λ o. peek_row o j) (get_elem?-replicate (suc (length source)) i _ (omega arith))
          ∙ get_elem?-replicate (suc (length target)) j 0 (omega arith),
    );
    known = λ i j hi hj h. absurd (omega (arith, h.1));
  }

  corner :
      (m : Matrix)
      → Filled source target (Rows (suc (length source))) m
      → cell m (length source) (length target)
        ≡ done (dist source target (length source) (length target))
  corner m f =
      cell-done m (length source) (length target) _
        (f.known (length source) (length target) (omega arith) (omega arith) (inr (omega arith)))

  matrix_distance :
      (fill_matrix source target
          (replicate (suc (length source)) (replicate (suc (length target)) 0))
        >>= λ m. cell m (length source) (length target))
      ≡ done (dist source target (length source) (length target))
  matrix_distance =
      Returns-then (Filled source target (Rows (suc (length source)))) (fill_matrix source target _)
        _ _ (matrix-Filled _ fresh-Filled) corner

-- For all texts distance returns, never leaves its matrix, and finds the edit distance that the
-- recursion on the lengths of the prefixes defines, with transpositions away from the start.
pub distance-dist :
    (source target : List ℕ)
    → distance source target ≡ done (dist source target (length source) (length target))
unfolding distance dist
distance-dist [] target = refl
distance-dist (s ∷ source) [] = refl
distance-dist (s ∷ source) (t ∷ target) = matrix_distance (s ∷ source) (t ∷ target)
