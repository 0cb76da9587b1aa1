-- ===== src/IpAccess/Rules.antt =====
-- What the rules say of an address, in the order in which they were added.
use msg_courier.Prelude.{
  ℕ, ◌≡◌, refl, sym, ap, ◌∙◌, pos, Bool, true, false, ◌&&◌, Option, none, some, List, [], ◌∷◌, ◌++◌,
  append_assoc, append-nil, leb, ◌==◌, if◌then◌else◌, length, All, map, arith,
}
use msg_courier.Memory.{Outcome, done, ◌>>=◌}
use msg_courier.IpAccess.{
  Kind, inclusion, exclusion, Code, ok, deny, Entry, add_signed, add, applies, code_of, parse_ip,
  validate_loop, validate, kind_of,
}
use msg_courier.IpAccess.Dotted.{dotted, value, IsAddress, parse_ip-dotted, dotted-short}

-- A rule: a star for an octant that may be any.
pub record Rule : Type 0 where
  pub kind : Kind
  pub parts : List (Option ℕ)

abbrev sign : Kind → ℕ
sign inclusion = 43
sign exclusion = 45

-- The line for the file of rules
abbrev pub line_of : Rule → List ℕ
line_of r = sign r.kind ∷ dotted r.parts

abbrev pub covers : List (Option ℕ) → List ℕ → Bool
covers [] xs = true
covers (p ∷ ps) [] = true
covers (none ∷ ps) (a ∷ xs) = covers ps xs
covers (some n ∷ ps) (a ∷ xs) = (n == a) && covers ps xs

-- The first rule that covers the address says whether it is let in; without one it is not.
unfoldable pub decision : List Rule → List ℕ → Code
decision [] xs = deny
decision (r ∷ rs) xs =
    let rest = decision rs xs in if covers r.parts xs then code_of r.kind else rest

-- Add of each line
unfoldable pub add_all : List (List ℕ) → List Entry → Outcome (List Entry)
unfolding add
add_all [] entries = done entries
add_all (l ∷ ls) entries = do (code, entries') ← add l entries; add_all ls entries'

abbrev entry : Rule → Entry
entry r = record { kind = r.kind; octants = map value r.parts }

kind_of-sign : (k : Kind) → kind_of (sign k) ≡ k
unfolding kind_of
kind_of-sign inclusion = refl
kind_of-sign exclusion = refl

add-line :
    (r : Rule) (entries : List Entry)
    → IsAddress r.parts
    → add (line_of r) entries ≡ done (ok, entries ++ entry r ∷ [])
unfolding add add_signed
add-line r entries h =
    let lt = dotted-short r.parts h in
    let fits : leb 255 (length (line_of r)) ≡ false = ground (arith, lt) in
    let parsed =
      parse_ip-dotted (sign r.kind) r.parts h
      ∙ ap (λ k. done (some (record { kind = k; octants = map value r.parts })))
          (kind_of-sign r.kind) in
    rw fits (by_kind r.kind parsed)
  where
    by_kind :
        (k : Kind)
        → parse_ip (sign k) (dotted r.parts) ≡ done (some (entry r))
        → add_signed (sign k ∷ dotted r.parts) entries ≡ done (ok, entries ++ entry r ∷ [])
    by_kind inclusion e = rw (e, ◌>>=◌) refl
    by_kind exclusion e = rw (e, ◌>>=◌) refl

add_all-lines :
    (rs : List Rule) (entries : List Entry)
    → All (λ r. IsAddress r.parts) rs
    → add_all (map line_of rs) entries ≡ done (entries ++ map entry rs)
unfolding add_all
add_all-lines [] entries h = ap done (sym (append-nil entries))
add_all-lines (r ∷ rs) entries h =
    rw (add-line r entries h.0, ◌>>=◌)
      (add_all-lines rs (entries ++ entry r ∷ []) h.1
        ∙ ap done (append_assoc entries (entry r ∷ []) (map entry rs)))

applies-covers :
    (ps : List (Option ℕ)) (xs : List ℕ)
    → applies (map value ps) (map (λ a. pos a) xs) ≡ covers ps xs
unfolding applies
applies-covers [] xs = refl
applies-covers (p ∷ ps) [] = refl
applies-covers (none ∷ ps) (a ∷ xs) = applies-covers ps xs
applies-covers (some n ∷ ps) (a ∷ xs) = ap (λ b. (n == a) && b) (applies-covers ps xs)

validate_loop-decision :
    (rs : List Rule) (xs : List ℕ)
    → validate_loop (map entry rs) (map (λ a. pos a) xs) ≡ decision rs xs
unfolding validate_loop decision
validate_loop-decision [] xs = refl
validate_loop-decision (r ∷ rs) xs =
    rw (applies-covers r.parts xs, validate_loop-decision rs xs) refl

-- After Add of lines with a sign and four octants each, every one a star or a byte, Validate of an
-- address of four bytes answers with what the first rule says that covers it, in the order of Add,
-- and denies it if none does.
pub validate-decision :
    (rs : List Rule) (xs : List ℕ)
    → All (λ r. IsAddress r.parts) rs
    → IsAddress (map (λ a. some a) xs)
    → (add_all (map line_of rs) [] >>= (λ es. validate (dotted (map (λ a. some a) xs)) es))
      ≡ done (decision rs xs)
unfolding validate
validate-decision rs xs h k =
    rw (add_all-lines rs [] h, ◌>>=◌)
      (rw (parse_ip-dotted 43 (map (λ a. some a) xs) k, ◌>>=◌)
        (ap done (ap (validate_loop (map entry rs)) (map_map xs) ∙ validate_loop-decision rs xs)))
  where
    map_map : (xs : List ℕ) → map value (map (λ a. some a) xs) ≡ map (λ a. pos a) xs
    map_map [] = refl
    map_map (a ∷ xs) = ap (λ vs. pos a ∷ vs) (map_map xs)
