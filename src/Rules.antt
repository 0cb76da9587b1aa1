-- ===== src/Rules.antt =====
-- msgrouterruleset.h, msgrouterruleset.cpp and msgrouterrulesengine.cpp: the rule sets that decide
-- which handler an inbound message goes to. The map m_RulesMap holds the sets of the vector
-- m_RuleSets by their names, so the vector stands for both. Boost's regex_match is a parameter.
pub mod Search
pub mod Contains
use Prim.Native.String.{String}
use text.Mathlib.Text.{◌==◌}
use msg_courier.Memory.{Outcome, done, fault, ◌>>=◌}
use msg_courier.Prelude.{
  ℕ, Bool, true, false, List, [], ◌∷◌, ◌++◌, Option, none, some, if◌then◌else◌,
}

-- MSG_RTO_NOTSET and the others
pub data Operation : Type 0 where
  op_notset contains matches like : Operation

pub data Location : Type 0 where
  loc_notset header payload status all_parts : Location

pub record Rule : Type 0 where
  pub location : Location
  pub operation : Operation
  pub match_pattern : String
  pub value : String

pub record RuleSet : Type 0 where
  pub name : String
  pub route_to : String
  pub rules : List Rule

-- cMsgRouterRuleSet::AddRule
add_to_set : Rule → RuleSet → RuleSet
add_to_set r set = record set { rules = set.rules ++ r ∷ [] }

-- The set of the name takes the rule, and is made behind the others if there is none.
pub add_rule : String → String → Rule → List RuleSet → List RuleSet
unfolding add_to_set
add_rule name route_to r [] = record { name = name; route_to = route_to; rules = r ∷ [] } ∷ []
add_rule name route_to r (set ∷ sets) =
    let rest = add_rule name route_to r sets in
    if set.name == name then add_to_set r set ∷ sets else set ∷ rest

-- The tests of one message: TestContains, TestMatch and TestLike.
pub record Tests : Type 0 where
  pub test_contains : Rule → Bool
  pub test_match : Rule → Bool

-- bTests after a rule, and before it; TestLike is not implemented and fails.
pub test : Tests → Rule → Operation → Bool → Bool
test t r contains before = t.test_contains r
test t r matches before = t.test_match r
test t r like before = false
test t r op_notset before = before

-- The do-while over the rules of a set.
pub rules_loop : Tests → List Rule → Bool → Bool
unfolding test
rules_loop t [] before = before
rules_loop t (r ∷ rs) before =
    let after = test t r r.operation before in
    let rest = rules_loop t rs after in if after then rest else false

-- GetFirstRule, which may not be called on a set without rules, and the loop after it.
set_test : Tests → List Rule → Bool → Outcome Bool
unfolding rules_loop
set_test t [] before = fault
set_test t (r ∷ rs) before = done (rules_loop t (r ∷ rs) before)

-- The loop over the sets, with bTests and the route of the set that matches.
sets_loop : Tests → List RuleSet → Bool → Outcome (Option String)
unfolding set_test
sets_loop t [] before = done none
sets_loop t (set ∷ sets) before = do
  after ← set_test t set.rules before
  let rest = sets_loop t sets after
  if after then done (some set.route_to) else rest

pub search : Tests → List RuleSet → Outcome (Option String)
unfolding sets_loop
search t sets = sets_loop t sets false
