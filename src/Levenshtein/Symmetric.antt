-- ===== src/Levenshtein/Symmetric.antt =====
-- The distance is the same in both directions.
use msg_courier.Prelude.{ℕ, zero, suc, ◌+◌, ◌≤◌, ◌<◌, ◌≡◌, refl, sym, ap, ◌∙◌, List, arith, length}
use msg_courier.Memory.{done}
use msg_courier.Levenshtein.{differs, distance}
use msg_courier.Levenshtein.Reference.{char_at, dist, swapped}
use msg_courier.Levenshtein.Rows.{distance-dist}

differs_sym : (a b : ℕ) → differs a b ≡ differs b a
differs_sym a b = ground arith

module _ (source target : List ℕ) where
  -- The transpositions agree where the distances two places back do.
  swapped_sym :
      (i j best best' : ℕ)
      → best ≡ best'
      → ((i' j' : ℕ)
          → suc i' ≤ i
          → suc j' ≤ j
          → dist source target i' j' ≡ dist target source j' i')
      → swapped source target i j best ≡ swapped target source j i best'
  unfolding swapped
  swapped_sym zero zero b b' e h = e
  swapped_sym zero (suc zero) b b' e h = e
  swapped_sym zero (suc (suc j)) b b' e h = e
  swapped_sym (suc zero) zero b b' e h = e
  swapped_sym (suc (suc i)) zero b b' e h = e
  swapped_sym (suc zero) (suc zero) b b' e h = e
  swapped_sym (suc zero) (suc (suc j)) b b' e h = e
  swapped_sym (suc (suc i)) (suc zero) b b' e h = e
  swapped_sym (suc (suc i)) (suc (suc j)) b b' e h = omega (
    arith,
    e,
    h (suc i) (suc j) (omega arith) (omega arith),
    differs_sym (char_at source (suc i)) (char_at target (suc (suc j))),
    differs_sym (char_at source (suc (suc i))) (char_at target (suc j)),
  )

  dist_sym : (n i j : ℕ) → i + j < n → dist source target i j ≡ dist target source j i
  unfolding dist
  dist_sym zero i j h = absurd (omega arith)
  dist_sym (suc n) zero zero h = refl
  dist_sym (suc n) zero (suc j) h = refl
  dist_sym (suc n) (suc i) zero h = refl
  dist_sym (suc n) (suc i) (suc j) h =
      swapped_sym i j _ _
        (omega (
          arith,
          dist_sym n i (suc j) (omega arith),
          dist_sym n (suc i) j (omega arith),
          dist_sym n i j (omega arith),
          differs_sym (char_at source i) (char_at target j),
        ))
        (λ i' j' p q. dist_sym n i' j' (omega arith))

  -- For all texts distance gives the same result when its arguments are exchanged.
  pub distance-sym : distance source target ≡ distance target source
  distance-sym =
      distance-dist source target
      ∙ ap done (
          dist_sym (suc (length source + length target)) (length source) (length target)
            (omega arith))
      ∙ sym (distance-dist target source)
