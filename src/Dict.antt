-- ===== src/Dict.antt =====
-- std::map with keys of type std::string: a list of the entries in the order of the keys, which is
-- that of the bytes, with each key once.
pub mod Laws
use Prim.Native.Nat.{compare, Ordering}
use msg_courier.Prelude.{ℕ, Bool, true, false, Option, none, some, List, [], ◌∷◌, if◌then◌else◌}

-- The first answer that is not "equal".
unfoldable pub first_of : Ordering → Ordering → Ordering
first_of Ordering.lt o = Ordering.lt
first_of Ordering.eq o = o
first_of Ordering.gt o = Ordering.gt

-- std::string::compare
unfoldable pub order : List ℕ → List ℕ → Ordering
unfolding first_of
order [] [] = Ordering.eq
order [] (y ∷ ys) = Ordering.lt
order (x ∷ xs) [] = Ordering.gt
order (x ∷ xs) (y ∷ ys) = first_of (compare x y) (order xs ys)

abbrev pub is_eq : Ordering → Bool
is_eq Ordering.lt = false
is_eq Ordering.eq = true
is_eq Ordering.gt = false

abbrev pub Dict {ℓ} : Type ℓ → Type ℓ
Dict V = List (List ℕ × V)

module _ {ℓ} {V : Type ℓ} where
  -- find
  unfoldable pub lookup : List ℕ → Dict V → Option V
  unfolding order
  lookup j [] = none
  lookup j ((k, v) ∷ m) = if is_eq (order j k) then some v else lookup j m

  abbrev placed : Ordering → List ℕ → V → List ℕ × V → Dict V → Dict V → Dict V
  placed Ordering.lt k v e m rest = (k, v) ∷ (e ∷ m)
  placed Ordering.eq k v e m rest = (k, v) ∷ m
  placed Ordering.gt k v e m rest = e ∷ rest

  -- m[k] = v
  unfoldable pub insert : List ℕ → V → Dict V → Dict V
  unfolding order
  insert k v [] = (k, v) ∷ []
  insert k v (e ∷ m) = placed (order k e.0) k v e m (insert k v m)
