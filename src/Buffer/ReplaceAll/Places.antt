-- ===== src/Buffer/ReplaceAll/Places.antt =====
-- Where the next byte of a kind stands, and a text with another in place of each, for ReplaceAll.
use msg_courier.Prelude.{
  ℕ, ◌≡◌, refl, sym, ap, ◌∙◌, true, false, Bool-cases, inl, inr, ◌⊎◌, none, List, [], ◌∷◌, ◌++◌,
  append-nil, ◌==◌, if◌then◌else◌, length, length-append, drop-append_left, arith,
}
use msg_courier.Memory.{done}
use msg_courier.Buffer.{Buffer}
use msg_courier.Buffer.Append.{Holds}
use msg_courier.Buffer.Copy.{length-bytes}
use msg_courier.Buffer.Search.{begins, strstr, find}
use msg_courier.Buffer.Search.Places.{strstr-skip}
use msg_courier.Buffer.Search.Exact.{c_str, c_str-append, find-done}
use msg_courier.HeaderExtract.Lines.{Lacks}

-- The text with another in place of each byte of one kind.
abbrev pub replaced : ℕ → List ℕ → List ℕ → List ℕ
replaced c text [] = []
replaced c text (x ∷ xs) = (if x == c then text else x ∷ []) ++ replaced c text xs

pub replaced-Lacks : (c : ℕ) (text xs : List ℕ) → Lacks c xs → replaced c text xs ≡ xs
replaced-Lacks c text [] h = refl
replaced-Lacks c text (x ∷ xs) h =
    let no = h.0 in
    let e : (x == c) ≡ false = ground arith in
    rw e (ap (λ ys. x ∷ ys) (replaced-Lacks c text xs h.1))

pub replaced-append :
    (c : ℕ) (text xs ys : List ℕ)
    → Lacks c xs
    → replaced c text (xs ++ (c ∷ ys)) ≡ xs ++ (text ++ replaced c text ys)
replaced-append c text [] ys h = let e : (c == c) ≡ true = ground arith in rw e refl
replaced-append c text (x ∷ xs) ys h =
    let no = h.0 in
    let e : (x == c) ≡ false = ground arith in
    rw e (ap (λ zs. x ∷ zs) (replaced-append c text xs ys h.1))

-- A text with the byte, up to its first place, or without it.
pub record Split (c : ℕ) (xs : List ℕ) : Type 0 where
  pub front : List ℕ
  pub behind : List ℕ
  pub shape : xs ≡ front ++ (c ∷ behind)
  pub free : Lacks c front

pub split : (c : ℕ) (xs : List ℕ) → Split c xs ⊎ Lacks c xs
split c [] = inr tt
split c (x ∷ xs) = elim (Bool-cases (x == c)) [
  | inl e ↦
      inl (record {
        front = [];
        behind = xs;
        shape = ap (λ y. y ∷ xs) (ground (arith, e));
        free = tt;
      })
  | inr e ↦ elim (split c xs) [
    | inl s ↦ inl (record {
      front = x ∷ s.front;
      behind = s.behind;
      shape = ap (λ ys. x ∷ ys) s.shape;
      free = ((λ z. ground (arith, e, z)), s.free);
    })
    | inr h ↦ inr ((λ z. ground (arith, e, z)), h)
  ]
]

-- Find behind what has been replaced already.
pub find_rest :
    (c : ℕ) (b : Buffer) (xs rest : List ℕ)
    → Holds b (xs ++ rest)
    → Lacks 0 rest
    → (b' : Buffer) × (find (c ∷ []) (length xs) b ≡ done (strstr (c ∷ []) rest (length xs), b'))
      × Holds b' (xs ++ rest)
unfolding find
find_rest c b xs rest holds h = elim (Bool-cases (b.tail == 0)) [
  | inl e ↦
      let n = length-bytes b (xs ++ rest) holds in
      let no_bytes : b.tail ≡ 0 = ground (arith, e) in
      let none_left : rest ≡ [] = empty rest (omega (arith, n, length-append xs rest, no_bytes)) in
      (b, rw e (ap (λ ys. done (strstr (c ∷ []) ys (length xs), b)) (sym none_left)), holds)
  | inr e ↦
      let n = length-bytes b (xs ++ rest) holds in
      let (b', found, holds') =
        find-done (c ∷ []) (length xs) b (xs ++ rest) holds (ground (arith, e, n))
          (omega (arith, length-append xs rest)) in
      (
        b',
        found
            ∙ ap (λ ys. done (strstr (c ∷ []) ys (length xs), b'))
                (ap c_str (drop-append_left (length xs) xs rest refl) ∙ whole rest h),
        holds',
      )
]
  where
    empty : (ys : List ℕ) → length ys ≡ 0 → ys ≡ []
    empty [] e = refl
    empty (y ∷ ys) e = absurd (omega (arith, e))

    whole : (ys : List ℕ) → Lacks 0 ys → c_str ys ≡ ys
    whole ys k = ap c_str (sym (append-nil ys)) ∙ c_str-append ys [] k ∙ append-nil ys

pub strstr-none : (c : ℕ) (xs : List ℕ) (at : ℕ) → Lacks c xs → strstr (c ∷ []) xs at ≡ none
unfolding strstr begins
strstr-none c xs at h =
    ap (λ ys. strstr (c ∷ []) ys at) (sym (append-nil xs)) ∙ strstr-skip c [] xs [] at h

pub begins_one : (c : ℕ) (ys : List ℕ) → begins (c ∷ []) (c ∷ ys) ≡ true
unfolding begins
begins_one c ys = let e : (c == c) ≡ true = ground arith in rw e refl
