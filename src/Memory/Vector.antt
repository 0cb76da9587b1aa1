-- ===== src/Memory/Vector.antt =====
-- The elements of a std::vector or a std::string by index: an index that is out of range is
-- undefined behaviour.
use msg_courier.Prelude.{
  ℕ, zero, suc, ◌<◌, ◌≡◌, ◌≢◌, refl, ap, none, some, List, [], ◌∷◌, arith, length, get_elem?,
  get_or,
}
use msg_courier.Memory.{Outcome, done, fault, ◌>>=◌}

unfoldable pub at {ℓ} : {A : Type ℓ} → List A → ℕ → Outcome A
at xs i = elim (get_elem? xs i) [ none ↦ fault | some x ↦ done x ]

unfoldable pub store {ℓ} : {A : Type ℓ} → List A → ℕ → A → Outcome (List A)
store [] i y = fault
store (x ∷ xs) zero y = done (y ∷ xs)
store (x ∷ xs) (suc i) y = do rest ← store xs i y; done (x ∷ rest)

pub at-done {ℓ} :
    {A : Type ℓ} (xs : List A) (i : ℕ) (x : A) → get_elem? xs i ≡ some x → at xs i ≡ done x
unfolding at
at-done xs i x e = rw (e, at) refl

pub at_entry : (xs : List ℕ) (i : ℕ) → i < length xs → at xs i ≡ done (get_or xs i 0)
unfolding at
at_entry [] i h = absurd (omega arith)
at_entry (x ∷ xs) zero h = refl
at_entry (x ∷ xs) (suc i) h = at_entry xs i (omega arith)

-- A write at a place that the list has.
pub store-done {ℓ} :
    {A : Type ℓ} (xs : List A) (i : ℕ) (x y : A)
    → get_elem? xs i ≡ some x
    → (ys : List A) × (store xs i y ≡ done ys)
      × (get_elem? ys i ≡ some y)
      × ((k : ℕ) → k ≢ i → get_elem? ys k ≡ get_elem? xs k)
unfolding store
store-done [] i x y e = ground (arith, e)
store-done (z ∷ xs) zero x y e = (y ∷ xs, refl, refl, other)
  where
    other : (k : ℕ) → k ≢ 0 → get_elem? (y ∷ xs) k ≡ get_elem? (z ∷ xs) k
    other zero ne = absurd (ne refl)
    other (suc k) ne = refl
store-done (z ∷ xs) (suc i) x y e =
    let (ys, ran, self, others) = store-done xs i x y e in
    (z ∷ ys, rw ran refl, self, other ys others)
  where
    other :
        (ys : List _)
        → ((k : ℕ) → k ≢ i → get_elem? ys k ≡ get_elem? xs k)
        → (k : ℕ) → k ≢ suc i
        → get_elem? (z ∷ ys) k ≡ get_elem? (z ∷ xs) k
    other ys h zero ne = refl
    other ys h (suc k) ne = h k (λ q. ne (ap suc q))
