-- ===== src/IpAccess.antt =====
-- ipaccess.h and ipaccess.cpp: cIPAccess, the rules by which addresses are let in. A char* is the
-- list of the bytes before its NUL; the lock is held throughout and the log is left out.
pub mod Dotted
pub mod Rules
use msg_courier.Prelude.{
  ℕ, zero, suc, ℤ, pos, negsuc, minus_one, is_minus_one, Bool, true, false, ◌&&◌, ◌||◌, Option,
  none, some, List, [], ◌∷◌, ◌++◌, ltb, leb, ◌==◌, if◌then◌else◌, length,
}
use msg_courier.Memory.{Outcome, done, fault, ◌>>=◌}
use msg_courier.Dict.{order, is_eq}
use msg_courier.Msg.Atoi.{atoi}

pub data Kind : Type 0 where
  inclusion : Kind
  exclusion : Kind

pub data Code : Type 0 where
  ok : Code
  parse_failed : Code
  deny : Code

pub record Entry : Type 0 where
  pub kind : Kind
  pub octants : List ℤ

-- '.'
abbrev pub dot : ℕ
dot = 46

-- "*"
abbrev pub star : List ℕ
star = 42 ∷ []

unfoldable pub until_dot : List ℕ → List ℕ × List ℕ
until_dot [] = ([], [])
until_dot (c ∷ cs) = let (t, rest) = until_dot cs in if c == dot then ([], cs) else (c ∷ t, rest)

-- STRTOK: the dots in front are skipped; without a token the answer is NULL.
unfoldable pub token : List ℕ → Option (List ℕ) × List ℕ
unfolding until_dot
token [] = (none, [])
token (c ∷ cs) =
    let later = token cs in
    let (t, rest) = until_dot cs in if c == dot then later else (some (c ∷ t), rest)

-- strcmp of NULL is undefined behaviour.
unfoldable pub octval : Option (List ℕ) → Outcome ℤ
unfolding atoi order
octval none = fault
octval (some t) = if is_eq (order t star) then done minus_one else atoi t

abbrev pub too_big : ℤ → Bool
too_big (pos n) = ltb 255 n
too_big (negsuc n) = false

abbrev pub put_first : ℤ → Option (List ℤ) → Option (List ℤ)
put_first v none = none
put_first v (some vs) = some (v ∷ vs)

-- The octants that are left to read.
unfoldable pub octants_of : ℕ → List ℕ → Outcome (Option (List ℤ))
unfolding token octval
octants_of zero s = done (some [])
octants_of (suc n) s =
    let (t, rest) = token s in
    do
      v ← octval t
      elim (too_big v) [
        | true ↦ done none
        | false ↦ do vs ← octants_of n rest; done (put_first v vs)
      ]

unfoldable pub kind_of : ℕ → Kind
kind_of c = if c == 43 then inclusion else exclusion

abbrev pub entry_of : Kind → Option (List ℤ) → Option Entry
entry_of k none = none
entry_of k (some vs) = some (record { kind = k; octants = vs })

-- ParseIP of a sign and an address. strncpy writes no NUL behind 16 bytes.
unfoldable pub parse_ip : ℕ → List ℕ → Outcome (Option Entry)
unfolding octants_of kind_of
parse_ip sign address =
    if leb 16 (length address)
    then fault
    else do vs ← octants_of 4 address; done (entry_of (kind_of sign) vs)

abbrev pub pushed : Option Entry → List Entry → Code × List Entry
pushed none rules = (parse_failed, rules)
pushed (some e) rules = (ok, rules ++ e ∷ [])

unfoldable pub add_signed : List ℕ → List Entry → Outcome (Code × List Entry)
unfolding parse_ip
add_signed [] rules = done (parse_failed, rules)
add_signed (c ∷ cs) rules = elim (c == 43 || c == 45) [
  | true ↦ do e ← parse_ip c cs; done (pushed e rules)
  | false ↦ done (parse_failed, rules)
]

-- Add; `oneline` has 255 bytes.
unfoldable pub add : List ℕ → List Entry → Outcome (Code × List Entry)
unfolding add_signed
add line rules = if leb 255 (length line) then fault else add_signed line rules

-- Flush
flush : List Entry → List Entry
flush rules = []

-- No octant of the rule says no.
unfoldable pub applies : List ℤ → List ℤ → Bool
applies [] es = true
applies (r ∷ rs) [] = true
applies (r ∷ rs) (e ∷ es) = (is_minus_one r || is_same r e) && applies rs es
  where
    is_same : ℤ → ℤ → Bool
    is_same (pos m) (pos n) = m == n
    is_same (negsuc m) (negsuc n) = m == n
    is_same (pos m) (negsuc n) = false
    is_same (negsuc m) (pos n) = false

abbrev pub code_of : Kind → Code
code_of inclusion = ok
code_of exclusion = deny

unfoldable pub validate_loop : List Entry → List ℤ → Code
unfolding applies
validate_loop [] vs = deny
validate_loop (r ∷ rules) vs =
    let rest = validate_loop rules vs in if applies r.octants vs then code_of r.kind else rest

abbrev pub validated : List Entry → Option Entry → Code
validated rules none = parse_failed
validated rules (some e) = validate_loop rules e.octants

unfoldable pub validate : List ℕ → List Entry → Outcome Code
unfolding parse_ip validate_loop
validate address rules = do e ← parse_ip 43 address; done (validated rules e)
