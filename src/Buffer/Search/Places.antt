-- ===== src/Buffer/Search/Places.antt =====
-- Where strstr finds a pattern in a text that is given in parts.
use msg_courier.Prelude.{
  ℕ, zero, suc, ◌+◌, ◌≤◌, ◌≡◌, refl, sym, ap, ◌∙◌, true, false, inl, inr, Bool-cases, some, List,
  [], ◌∷◌, ◌++◌, ◌==◌, drop, length, arith, All,
}
use msg_courier.Buffer.Search.{begins, strstr}

pub begins_self : (pattern xs : List ℕ) → begins pattern (pattern ++ xs) ≡ true
unfolding begins
begins_self [] xs = refl
begins_self (p ∷ ps) xs = let e : (p == p) ≡ true = ground arith in rw (e, begins_self ps xs)

pub strstr-here :
    (pattern xs : List ℕ) (at : ℕ) → begins pattern xs ≡ true → strstr pattern xs at ≡ some at
unfolding strstr
strstr-here pattern [] at e = rw e refl
strstr-here pattern (x ∷ xs) at e = rw e refl

pub strstr-later :
    (pattern xs : List ℕ) (x at : ℕ)
    → begins pattern (x ∷ xs) ≡ false
    → strstr pattern (x ∷ xs) at ≡ strstr pattern xs (at + 1)
unfolding strstr
strstr-later pattern xs x at e = rw e refl

begins-other : (p : ℕ) (ps xs : List ℕ) (x : ℕ) → ¬ (x ≡ p) → begins (p ∷ ps) (x ∷ xs) ≡ false
unfolding begins
begins-other p ps xs x h = let e : (p == x) ≡ false = ground arith in rw e refl

-- Past characters with which the pattern does not begin.
pub strstr-skip :
    (p : ℕ) (ps xs ys : List ℕ) (at : ℕ)
    → All (λ x. ¬ (x ≡ p)) xs
    → strstr (p ∷ ps) (xs ++ ys) at ≡ strstr (p ∷ ps) ys (at + length xs)
strstr-skip p ps [] ys at h = ap (strstr (p ∷ ps) ys) (omega arith)
strstr-skip p ps (x ∷ xs) ys at h =
    strstr-later (p ∷ ps) (xs ++ ys) x at (begins-other p ps (xs ++ ys) x h.0)
    ∙ strstr-skip p ps xs ys (at + 1) h.1
    ∙ ap (strstr (p ∷ ps) ys) (omega arith)

-- Where the pattern stands behind such characters.
pub strstr-append :
    (p : ℕ) (ps xs ys : List ℕ) (at : ℕ)
    → All (λ x. ¬ (x ≡ p)) xs
    → begins (p ∷ ps) ys ≡ true
    → strstr (p ∷ ps) (xs ++ ys) at ≡ some (at + length xs)
strstr-append p ps xs ys at h e =
    strstr-skip p ps xs ys at h ∙ strstr-here (p ∷ ps) ys (at + length xs) e

-- A search from an offset up to the first place finds that place.
pub strstr-drop :
    (pattern xs : List ℕ) (k at d : ℕ)
    → strstr pattern xs at ≡ some d
    → at + k ≤ d
    → strstr pattern (drop k xs) (at + k) ≡ some d
unfolding strstr
strstr-drop pattern xs zero at d e h = let z : at + 0 ≡ at = omega arith in rw z e
strstr-drop pattern [] (suc k) at d e h = elim (Bool-cases (begins pattern [])) [
  | inl b ↦ absurd (ground (arith, b, e, h))
  | inr b ↦ absurd (ground (arith, b, e))
]
strstr-drop pattern (x ∷ xs) (suc k) at d e h = elim (Bool-cases (begins pattern (x ∷ xs))) [
  | inl b ↦ absurd (ground (arith, b, e, h))
  | inr b ↦
      let z : at + suc k ≡ at + 1 + k = omega arith in
      rw z (
        strstr-drop pattern xs k (at + 1) d (sym (strstr-later pattern xs x at b) ∙ e)
          (omega (arith, h)))
]
