-- ===== src/Levenshtein/Matrix.antt =====
-- Reading and writing the cells of the matrix.
use msg_courier.Prelude.{
  ℕ, zero, suc, ◌+◌, ◌≤◌, ◌<◌, ◌≡◌, ◌≢◌, refl, sym, ap, ◌∙◌, subst, Option, none, some, List, arith,
  get_elem?, replicate, ◌⊎◌, inl, inr, Bool-cases, ◌==◌, ==_iff,
}
use msg_courier.Memory.{Outcome, done, ◌>>=◌, Returns, Returns-bind}
use msg_courier.Memory.Vector.{at-done, store-done}
use msg_courier.Levenshtein.{Matrix, cell, set_cell, for}

abbrev pub peek_row : Option (List ℕ) → ℕ → Option ℕ
peek_row none j = none
peek_row (some row) j = get_elem? row j

abbrev pub peek : Matrix → ℕ → ℕ → Option ℕ
peek m i j = peek_row (get_elem? m i) j

cell_row :
    (m : Matrix) (i j v : ℕ) (row : Option (List ℕ))
    → get_elem? m i ≡ row
    → peek_row row j ≡ some v
    → cell m i j ≡ done v
unfolding cell
cell_row m i j v none q h = ground (arith, h)
cell_row m i j v (some row) q h = rw (at-done m i row q, cell) (at-done row j v h)

pub cell-done : (m : Matrix) (i j v : ℕ) → peek m i j ≡ some v → cell m i j ≡ done v
cell-done m i j v e = cell_row m i j v (get_elem? m i) refl e

-- The matrix after a write: the one cell and all others.
pub record Written (m : Matrix) (i j v : ℕ) (m' : Matrix) : Type 0 where
  pub here : peek m' i j ≡ some v
  pub others : (k l : ℕ) → (k ≢ i) ⊎ (l ≢ j) → peek m' k l ≡ peek m k l

module _ (m : Matrix) (i j v : ℕ) where
  untouched :
      (row row' : List ℕ) (m' : Matrix)
      → get_elem? m i ≡ some row
      → get_elem? m' i ≡ some row'
      → ((l : ℕ) → l ≢ j → get_elem? row' l ≡ get_elem? row l)
      → ((k : ℕ) → k ≢ i → get_elem? m' k ≡ get_elem? m k)
      → (k l : ℕ) → (k ≢ i) ⊎ (l ≢ j)
      → peek m' k l ≡ peek m k l
  untouched row row' m' q self' cols rows k l (inl ne) = ap (λ o. peek_row o l) (rows k ne)
  untouched row row' m' q self' cols rows k l (inr ne) = elim (Bool-cases (k == i)) [
    | inl same ↦
        let e = (==_iff k i).0 same in
        ap (λ x. peek m' x l) e
        ∙ ap (λ o. peek_row o l) self'
        ∙ cols l ne
        ∙ sym (ap (λ o. peek_row o l) q)
        ∙ sym (ap (λ x. peek m x l) e)
    | inr other ↦ ap (λ o. peek_row o l) (rows k (λ e. ground (arith, e, other)))
  ]

  set_row :
      (u : ℕ) (o : Option (List ℕ))
      → get_elem? m i ≡ o
      → peek_row o j ≡ some u
      → Returns (Written m i j v) (set_cell i j v m)
  unfolding set_cell
  set_row u none q h = ground (arith, h)
  set_row u (some row) q h =
      let (row', wrote, self, cols) = store-done row j u v h in
      let (m', put, self', rows) = store-done m i row row' q in
      rw (at-done m i row q, set_cell)
        (rw (wrote, ◌>>=◌)
          (rw put (record {
            here = ap (λ o. peek_row o j) self' ∙ self;
            others = untouched row row' m' q self' cols rows;
          })))

  pub set_cell-Written :
      (u : ℕ) → peek m i j ≡ some u → Returns (Written m i j v) (set_cell i j v m)
  set_cell-Written u e = set_row u (get_elem? m i) refl e

-- The invariant rule of the counting loop.
pub for-Returns {ℓ} :
    {S : Type ℓ} (P : ℕ → S → Type 0) (stop : ℕ) (body : ℕ → S → Outcome S) (n i : ℕ) (s : S)
    → i + n ≡ stop
    → ((k : ℕ) (t : S) → i ≤ k → k < stop → P k t → Returns (P (suc k)) (body k t))
    → P i s
    → Returns (P stop) (for n i body s)
unfolding for
for-Returns P stop body zero i s e keep p = subst (λ k. P k s) (omega arith) p
for-Returns P stop body (suc n) i s e keep p =
    Returns-bind (P (suc i)) (P stop) (body i s) _ (keep i s (omega arith) (omega arith) p)
      λ t q. for-Returns P stop body n (suc i) t (omega arith) (λ k u lo. keep k u (omega arith)) q

pub get_elem?-replicate {ℓ} :
    {A : Type ℓ} (n i : ℕ) (x : A) → i < n → get_elem? (replicate n x) i ≡ some x
get_elem?-replicate zero i x h = absurd (omega arith)
get_elem?-replicate (suc n) zero x h = refl
get_elem?-replicate (suc n) (suc i) x h = get_elem?-replicate n i x (omega arith)
