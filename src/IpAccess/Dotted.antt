-- ===== src/IpAccess/Dotted.antt =====
-- Rules and addresses that are written with dots.
use msg_courier.Prelude.{
  ℕ, suc, ◌+◌, ◌*◌, ◌/◌, ◌%◌, ◌≤◌, ◌<◌, ◌≡◌, refl, ap, ◌∙◌, subst, ℤ, pos, negsuc, minus_one, Bool,
  true, false, Option, none, some, List, [], ◌∷◌, ◌++◌, ltb, leb, ◌==◌, if◌then◌else◌, length,
  length-append, All, map, all_below, all_below_sound, arith, Bool-cases, inl, inr,
}
use msg_courier.Memory.{Outcome, done, fault, throws, ◌>>=◌}
use msg_courier.Dict.{order}
use msg_courier.Msg.Atoi.{atoi}
use msg_courier.HeaderExtract.Lines.{Lacks}
use msg_courier.IpAccess.{
  dot, star, until_dot, token, octval, too_big, put_first, octants_of, kind_of, parse_ip,
}

abbrev digit : ℕ → ℕ
digit n = 48 + n % 10

-- A number below 1000 with its digits.
unfoldable pub decimal : ℕ → List ℕ
decimal n =
    if ltb n 10
    then digit n ∷ []
    else if ltb n 100
    then digit (n / 10) ∷ (digit n ∷ [])
    else digit (n / 100) ∷ (digit (n / 10) ∷ (digit n ∷ []))

abbrev pub part : Option ℕ → List ℕ
part none = star
part (some n) = decimal n

abbrev pub dotted : List (Option ℕ) → List ℕ
dotted [] = []
dotted (p ∷ []) = part p
dotted (p ∷ q ∷ ps) = part p ++ (dot ∷ dotted (q ∷ ps))

-- A star, or a byte.
abbrev pub IsOctet : Option ℕ → Type 0
IsOctet none = Unit
IsOctet (some n) = n < 256

abbrev pub value : Option ℕ → ℤ
value none = minus_one
value (some n) = pos n

is_value : Outcome ℤ → ℕ → Bool
is_value (done (pos m)) n = m == n
is_value (done (negsuc m)) n = false
is_value fault n = false
is_value throws n = false

is_value_sound : (o : Outcome ℤ) (n : ℕ) → is_value o n ≡ true → o ≡ done (pos n)
unfolding is_value
is_value_sound (done (pos m)) n h = ground (arith, h)
is_value_sound (done (negsuc m)) n h = ground (arith, h)
is_value_sound fault n h = ground (arith, h)
is_value_sound throws n h = ground (arith, h)

octval-part : (p : Option ℕ) → IsOctet p → octval (some (part p)) ≡ done (value p)
unfolding octval atoi order decimal all_below is_value
octval-part none h = refl
octval-part (some n) h =
    is_value_sound (octval (some (decimal n))) n
      (all_below_sound 256 (λ m. is_value (octval (some (decimal m))) m) n refl h)

-- A text that is not empty and has no dot
abbrev IsWord : List ℕ → Type 0
IsWord [] = ⊥
IsWord (c ∷ cs) = Lacks dot (c ∷ cs)

digit_lem : (n : ℕ) → ¬ (digit n ≡ dot)
digit_lem n h = omega (arith, h)

decimal-IsWord : (n : ℕ) → IsWord (decimal n) × (length (decimal n) ≤ 3)
unfolding decimal
decimal-IsWord n = elim (Bool-cases (ltb n 10)) [
  | inl e ↦ rw e ((digit_lem n, tt), omega arith)
  | inr e ↦ rw e (elim (Bool-cases (ltb n 100)) [
    | inl f ↦ rw f ((digit_lem (n / 10), (digit_lem n, tt)), omega arith)
    | inr f ↦ rw f ((digit_lem (n / 100), (digit_lem (n / 10), (digit_lem n, tt))), omega arith)
  ])
]

part-IsWord : (p : Option ℕ) → IsWord (part p) × (length (part p) ≤ 3)
part-IsWord none = ((λ e. omega (arith, e), tt), omega arith)
part-IsWord (some n) = decimal-IsWord n

until_dot-append : (xs ys : List ℕ) → Lacks dot xs → until_dot (xs ++ (dot ∷ ys)) ≡ (xs, ys)
unfolding until_dot
until_dot-append [] ys h = refl
until_dot-append (x ∷ xs) ys h =
    let no = h.0 in
    let e : (x == dot) ≡ false = ground arith in rw (until_dot-append xs ys h.1) (rw e refl)

until_dot-end : (xs : List ℕ) → Lacks dot xs → until_dot xs ≡ (xs, [])
unfolding until_dot
until_dot-end [] h = refl
until_dot-end (x ∷ xs) h =
    let no = h.0 in
    let e : (x == dot) ≡ false = ground arith in rw (until_dot-end xs h.1) (rw e refl)

token-append : (w ys : List ℕ) → IsWord w → token (w ++ (dot ∷ ys)) ≡ (some w, ys)
unfolding token
token-append [] ys h = absurd h
token-append (c ∷ cs) ys h =
    let no = h.0 in
    let e : (c == dot) ≡ false = ground arith in rw (until_dot-append cs ys h.1) (rw e refl)

token-end : (w : List ℕ) → IsWord w → token w ≡ (some w, [])
unfolding token
token-end [] h = absurd h
token-end (c ∷ cs) h =
    let no = h.0 in
    let e : (c == dot) ≡ false = ground arith in rw (until_dot-end cs h.1) (rw e refl)

small : (p : Option ℕ) → IsOctet p → too_big (value p) ≡ false
small none h = refl
small (some n) h = ground (arith, h)

-- One octant, and those behind it.
octants_of-suc :
    (n : ℕ) (s t rest : List ℕ) (v : ℤ)
    → token s ≡ (some t, rest)
    → octval (some t) ≡ done v
    → too_big v ≡ false
    → octants_of (suc n) s ≡ (octants_of n rest >>= (λ vs. done (put_first v vs)))
unfolding octants_of
octants_of-suc n s t rest v first e low =
    let word : (token s).0 ≡ some t = ap (λ r. r.0) first in
    rw word
      (rw (e, ◌>>=◌) (rw low (ap (λ r. octants_of n r.1 >>= (λ vs. done (put_first v vs))) first)))

octants_of-cons :
    (n : ℕ) (p : Option ℕ) (ps : List (Option ℕ))
    → IsOctet p
    → octants_of (suc n) (dotted (p ∷ ps))
      ≡ (octants_of n (dotted ps) >>= (λ vs. done (put_first (value p) vs)))
octants_of-cons n p [] h =
    octants_of-suc n (part p) (part p) [] (value p) (token-end (part p) (part-IsWord p).0)
      (octval-part p h) (small p h)
octants_of-cons n p (q ∷ ps) h =
    octants_of-suc n (part p ++ (dot ∷ dotted (q ∷ ps))) (part p) (dotted (q ∷ ps)) (value p)
      (token-append (part p) (dotted (q ∷ ps)) (part-IsWord p).0) (octval-part p h) (small p h)

octants_of-dotted :
    (ps : List (Option ℕ))
    → All IsOctet ps
    → octants_of (length ps) (dotted ps) ≡ done (some (map value ps))
unfolding octants_of
octants_of-dotted [] h = refl
octants_of-dotted (p ∷ ps) h =
    octants_of-cons (length ps) p ps h.0 ∙ rw (octants_of-dotted ps h.1, ◌>>=◌) refl

-- An address of four octets has at most 15 bytes.
dotted-lt : (p : Option ℕ) (ps : List (Option ℕ)) → length (dotted (p ∷ ps)) < length (p ∷ ps) * 4
dotted-lt p [] = let h = (part-IsWord p).1 in omega (arith, h)
dotted-lt p (q ∷ ps) =
    let h = (part-IsWord p).1 in
    let k = dotted-lt q ps in omega (arith, h, k, length-append (part p) (dot ∷ dotted (q ∷ ps)))

-- Four octets
pub record IsAddress (ps : List (Option ℕ)) : Type 0 where
  pub four : length ps ≡ 4
  pub octets : All IsOctet ps

pub dotted-short : (ps : List (Option ℕ)) → IsAddress ps → length (dotted ps) < 16
dotted-short [] h = absurd (let f = h.four in omega (arith, f))
dotted-short (p ∷ ps) h = let f = h.four in let l = dotted-lt p ps in omega (arith, f, l)

pub parse_ip-dotted :
    (sign : ℕ) (ps : List (Option ℕ))
    → IsAddress ps
    → parse_ip sign (dotted ps)
      ≡ done (some (record { kind = kind_of sign; octants = map value ps }))
unfolding parse_ip
parse_ip-dotted sign ps h =
    let lt = dotted-short ps h in
    let fits : leb 16 (length (dotted ps)) ≡ false = ground (arith, lt) in
    let read : octants_of 4 (dotted ps) ≡ done (some (map value ps)) =
      subst (λ n. octants_of n (dotted ps) ≡ done (some (map value ps))) h.four
        (octants_of-dotted ps h.octets) in
    rw fits (rw (read, ◌>>=◌) refl)
