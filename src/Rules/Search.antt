-- ===== src/Rules/Search.antt =====
-- Which rule set a search answers with, and what AddRule makes of the sets.
use Prim.Native.String.{String}
use text.Mathlib.Text.{◌==◌}
use text.Mathlib.TextEquality.{eq_iff}
use msg_courier.Prelude.{
  ◌≡◌, ◌≢◌, refl, sym, ◌∙◌, ap, subst, Bool, true, false, ◌&&◌, List, [], ◌∷◌, ◌++◌, Option, none,
  some, arith, All, inl, inr, Bool-cases, if◌then◌else◌,
}
use msg_courier.Memory.{done}
use msg_courier.Rules.{
  Rule, RuleSet, Tests, test, rules_loop, set_test, sets_loop, search, add_rule, add_to_set,
}

-- All of the rules hold; a rule with no operation holds.
pub all_hold : Tests → List Rule → Bool
unfolding test
all_hold t [] = true
all_hold t (r ∷ rs) = test t r r.operation true && all_hold t rs

-- The set applies: it has a rule, the first has an operation, and all hold.
pub applies : Tests → List Rule → Bool
unfolding test
applies t [] = false
applies t (r ∷ rs) = test t r r.operation false && all_hold t rs

pub first_route : Tests → List RuleSet → Option String
unfolding applies
first_route t [] = none
first_route t (set ∷ sets) = if applies t set.rules then some set.route_to else first_route t sets

abbrev pub HasRules : RuleSet → Type 0
HasRules set = set.rules ≢ []

module _ (t : Tests) where
  -- The loop after a rule that came out as b.
  after_lem :
      (rs : List Rule) (b : Bool)
      → rules_loop t rs true ≡ all_hold t rs
      → (if b then rules_loop t rs b else false) ≡ (b && all_hold t rs)
  after_lem rs true e = e
  after_lem rs false e = refl

  rules_loop-true : (rs : List Rule) → rules_loop t rs true ≡ all_hold t rs
  unfolding rules_loop all_hold
  rules_loop-true [] = refl
  rules_loop-true (r ∷ rs) = after_lem rs (test t r r.operation true) (rules_loop-true rs)

  set_test-applies : (rs : List Rule) → rs ≢ [] → set_test t rs false ≡ done (applies t rs)
  unfolding set_test rules_loop applies
  set_test-applies [] h = ground (arith, h refl)
  set_test-applies (r ∷ rs) h =
      ap done (after_lem rs (test t r r.operation false) (rules_loop-true rs))

  choose_lem :
      (b : Bool) (route : String) (sets : List RuleSet)
      → sets_loop t sets false ≡ done (first_route t sets)
      → (if b then done (some route) else sets_loop t sets b)
        ≡ done (if b then some route else first_route t sets)
  choose_lem true route sets e = refl
  choose_lem false route sets e = e

  sets_loop-first_route :
      (sets : List RuleSet) → All HasRules sets → sets_loop t sets false ≡ done (first_route t sets)
  unfolding sets_loop first_route
  sets_loop-first_route [] h = refl
  sets_loop-first_route (set ∷ sets) h =
      rw (set_test-applies set.rules h.0)
        (choose_lem (applies t set.rules) set.route_to sets (sets_loop-first_route sets h.1))

  -- A search among sets that have rules answers with the route of the first set that applies: all
  -- of its rules hold, the first of which has an operation.
  pub search-first_route :
      (sets : List RuleSet) → All HasRules sets → search t sets ≡ done (first_route t sets)
  unfolding search
  search-first_route sets h = sets_loop-first_route sets h

-- The rules of the first set of a name.
unfoldable pub rules_of : String → List RuleSet → List Rule
rules_of name [] = []
rules_of name (set ∷ sets) = if set.name == name then set.rules else rules_of name sets

grown_HasRules : (rs : List Rule) (r : Rule) → (rs ++ r ∷ []) ≢ []
grown_HasRules [] r = ground arith
grown_HasRules (q ∷ rs) r = ground arith

-- Where all sets have rules, they do after AddRule, so that a search may be run on them.
pub add_rule-HasRules :
    (name route_to : String) (r : Rule) (sets : List RuleSet)
    → All HasRules sets
    → All HasRules (add_rule name route_to r sets)
unfolding add_rule add_to_set
add_rule-HasRules name route_to r [] h = (ground arith, tt)
add_rule-HasRules name route_to r (set ∷ sets) h = elim (Bool-cases (set.name == name)) [
  | inl e ↦ rw e (grown_HasRules set.rules r, h.1)
  | inr e ↦ rw e (h.0, add_rule-HasRules name route_to r sets h.1)
]

differ : {s t u : String} → (s == t) ≡ false → s ≡ u → t ≡ u → ⊥
differ {s} {t} e p q = ground (arith, e, (eq_iff s t).1 (p ∙ sym q))

own_lem :
    (b : Bool) (rs rest : List Rule) (r : Rule)
    → (if b then rs ++ r ∷ [] else rest)
      ≡ (if b then (if b then rs else rest) ++ r ∷ [] else (if b then rs else rest))
own_lem true rs rest r = refl
own_lem false rs rest r = refl

-- Of two names that differ, one is not asked for.
other_lem :
    (mine asked : Bool) (rs rest rest' : List Rule) (r : Rule)
    → ((mine ≡ true) → asked ≢ true)
    → rest' ≡ (if asked then rest ++ r ∷ [] else rest)
    → (if mine then rs else rest')
      ≡ (if asked then (if mine then rs else rest) ++ r ∷ [] else (if mine then rs else rest))
other_lem true true rs rest rest' r h e = ground (arith, h refl refl)
other_lem true false rs rest rest' r h e = refl
other_lem false asked rs rest rest' r h e = e

-- AddRule puts the rule behind the others of its set, and the other sets keep theirs.
pub rules_of-add_rule :
    (name route_to other : String) (r : Rule) (sets : List RuleSet)
    → rules_of other (add_rule name route_to r sets)
      ≡ (if name == other then rules_of other sets ++ r ∷ [] else rules_of other sets)
unfolding rules_of add_rule add_to_set
rules_of-add_rule name route_to other r [] = refl
rules_of-add_rule name route_to other r (set ∷ sets) = elim (Bool-cases (set.name == name)) [
  | inl e ↦
      let same = (eq_iff set.name name).0 e in
      rw e (
        subst
          (λ n. (if set.name == other then set.rules ++ r ∷ [] else rules_of other sets) ≡ (
            if n == other
            then (if set.name == other then set.rules else rules_of other sets) ++ r ∷ []
            else if set.name == other
            then set.rules
            else rules_of other sets))
          same (own_lem (set.name == other) set.rules (rules_of other sets) r))
  | inr e ↦ rw e (
      other_lem (set.name == other) (name == other) set.rules (rules_of other sets) _ r
        (λ p q. differ e ((eq_iff set.name other).0 p) ((eq_iff name other).0 q))
        (rules_of-add_rule name route_to other r sets))
]
