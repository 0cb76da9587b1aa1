-- ===== src/Dict/Laws.antt =====
-- What a lookup finds after an insertion, and the order of the keys.
use Prim.Native.Nat.{compare, Ordering}
use msg_courier.Prelude.{
  ℕ, ◌≡◌, refl, sym, ap, ap₂, ◌∙◌, Bool, true, false, some, List, [], ◌∷◌, ◌++◌, inl, inr, arith,
  All, All-map, if◌then◌else◌, Ordering-cases,
}
use msg_courier.Dict.{Dict, first_of, order, is_eq, lookup, insert}

pub order_self : (k : List ℕ) → order k k ≡ Ordering.eq
unfolding order first_of
order_self [] = refl
order_self (x ∷ xs) = let e : compare x x ≡ Ordering.eq = ground arith in rw (e, order_self xs)

pub order-eq : (j k : List ℕ) → order j k ≡ Ordering.eq → j ≡ k
unfolding order first_of
order-eq [] [] h = refl
order-eq [] (y ∷ ys) h = cc
order-eq (x ∷ xs) [] h = cc
order-eq (x ∷ xs) (y ∷ ys) h = elim (Ordering-cases (compare x y)) [
  | inl e ↦ ground (arith, e, h)
  | inr (inl e) ↦
      let same : x ≡ y = ground (arith, e) in ap₂ (λ a b. a ∷ b) same (order-eq xs ys (rw e at h))
  | inr (inr e) ↦ ground (arith, e, h)
]

pub order_swap : (j k : List ℕ) → order j k ≡ Ordering.lt → order k j ≡ Ordering.gt
unfolding order first_of
order_swap [] [] h = cc
order_swap [] (y ∷ ys) h = refl
order_swap (x ∷ xs) [] h = cc
order_swap (x ∷ xs) (y ∷ ys) h = elim (Ordering-cases (compare x y)) [
  | inl e ↦ let back : compare y x ≡ Ordering.gt = ground (arith, e) in rw back
  | inr (inl e) ↦
      let back : compare y x ≡ Ordering.eq = ground (arith, e) in
      rw back (order_swap xs ys (rw e at h))
  | inr (inr e) ↦ ground (arith, e, h)
]

pub order-gt : (j k : List ℕ) → order j k ≡ Ordering.gt → order k j ≡ Ordering.lt
unfolding order first_of
order-gt [] [] h = cc
order-gt [] (y ∷ ys) h = cc
order-gt (x ∷ xs) [] h = refl
order-gt (x ∷ xs) (y ∷ ys) h = elim (Ordering-cases (compare x y)) [
  | inl e ↦ ground (arith, e, h)
  | inr (inl e) ↦
      let back : compare y x ≡ Ordering.eq = ground (arith, e) in
      rw back (order-gt xs ys (rw e at h))
  | inr (inr e) ↦ let back : compare y x ≡ Ordering.lt = ground (arith, e) in rw back
]

pub order_trans :
    (i j k : List ℕ) → order i j ≡ Ordering.lt → order j k ≡ Ordering.lt → order i k ≡ Ordering.lt
unfolding order first_of
order_trans [] [] k h h' = cc
order_trans [] (y ∷ ys) [] h h' = cc
order_trans [] (y ∷ ys) (z ∷ zs) h h' = refl
order_trans (x ∷ xs) [] k h h' = cc
order_trans (x ∷ xs) (y ∷ ys) [] h h' = cc
order_trans (x ∷ xs) (y ∷ ys) (z ∷ zs) h h' = ground (arith, order_trans xs ys zs)

pub is_eq-path : (j k : List ℕ) → is_eq (order j k) ≡ true → j ≡ k
is_eq-path j k h = elim (Ordering-cases (order j k)) [
  | inl e ↦ ground (arith, e, h)
  | inr (inl e) ↦ order-eq j k e
  | inr (inr e) ↦ ground (arith, e, h)
]

if_hide {ℓ} :
    {A : Type ℓ} (b : Bool) (x y z : A)
    → (if b then x else z) ≡ (if b then x else if b then y else z)
if_hide true x y z = refl
if_hide false x y z = refl

if_swap {ℓ} :
    {A : Type ℓ} (b c : Bool) (x y z : A)
    → ¬ ((b ≡ true) × (c ≡ true))
    → (if b then x else if c then y else z) ≡ (if c then y else if b then x else z)
if_swap true true x y z h = absurd (h (refl, refl))
if_swap true false x y z h = refl
if_swap false c x y z h = refl

-- The keys stand in ascending order.
abbrev pub IsSorted {ℓ} : {V : Type ℓ} → Dict V → Type 0
IsSorted [] = Unit
IsSorted (e ∷ m) = All (λ d. order e.0 d.0 ≡ Ordering.lt) m × IsSorted m

module _ {ℓ} {V : Type ℓ} where
  pub lookup-insert :
      (j k : List ℕ) (v : V) (m : Dict V)
      → lookup j (insert k v m) ≡ (if is_eq (order j k) then some v else lookup j m)
  unfolding lookup insert
  lookup-insert j k v [] = refl
  lookup-insert j k v ((i, w) ∷ m) = elim (Ordering-cases (order k i)) [
    | inl e ↦ rw e refl
    | inr (inl e) ↦ rw e (rw (order-eq k i e) (if_hide (is_eq (order j i)) (some v) (some w) _))
    | inr (inr e) ↦ rw e (
        rw (lookup-insert j k v m) (
          if_swap (is_eq (order j i)) (is_eq (order j k)) (some w) (some v) (lookup j m)
            (λ both. apart e (sym (is_eq-path j k both.1) ∙ is_eq-path j i both.0))))
  ]
    where
      apart : order k i ≡ Ordering.gt → ¬ (k ≡ i)
      apart e same = ground (arith, ap (order k) same, order_self k, e)

  -- A key behind all others goes to the end.
  pub insert_last :
      (k : List ℕ) (v : V) (m : Dict V)
      → All (λ e. order e.0 k ≡ Ordering.lt) m
      → insert k v m ≡ m ++ (k, v) ∷ []
  unfolding insert
  insert_last k v [] h = refl
  insert_last k v (e ∷ m) h = rw (order_swap e.0 k h.0, insert_last k v m h.1) refl

  All-insert :
      (P : List ℕ → Type 0) (k : List ℕ) (v : V) (m : Dict V)
      → P k
      → All (λ e. P e.0) m
      → All (λ e. P e.0) (insert k v m)
  unfolding insert
  All-insert P k v [] p h = (p, tt)
  All-insert P k v (e ∷ m) p h = elim (Ordering-cases (order k e.0)) [
    | inl o ↦ rw o (p, h)
    | inr (inl o) ↦ rw o (p, h.1)
    | inr (inr o) ↦ rw o (h.0, All-insert P k v m p h.1)
  ]

  pub insert-IsSorted : (k : List ℕ) (v : V) (m : Dict V) → IsSorted m → IsSorted (insert k v m)
  unfolding insert
  insert-IsSorted k v [] s = (tt, tt)
  insert-IsSorted k v (e ∷ m) s = elim (Ordering-cases (order k e.0)) [
    | inl o ↦ rw o ((o, All-map _ _ m (λ d h. order_trans k e.0 d.0 o h) s.0), s)
    | inr (inl o) ↦
        rw o (All-map _ _ m (λ d h. ap (λ j. order j d.0) (order-eq k e.0 o) ∙ h) s.0, s.1)
    | inr (inr o) ↦ rw o (
      All-insert (λ j. order e.0 j ≡ Ordering.lt) k v m (order-gt k e.0 o) s.0,
      insert-IsSorted k v m s.1,
    )
  ]
