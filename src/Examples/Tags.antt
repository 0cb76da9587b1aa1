-- ===== src/Examples/Tags.antt =====
-- The routing tag ab@c:80, for routingtag.cpp.
use msg_courier.Prelude.{◌≡◌, refl, [], ◌∷◌, arith}
use msg_courier.RoutingTag.{RoutingTag, build_full_tag, set_tag}
use msg_courier.RoutingTag.Parts.{set_tag-built}

abbrev empty : RoutingTag
empty = record { full_tag = []; tag_name = []; tag_addr = []; tag_port = [] }

abbrev tag : RoutingTag
tag = record empty { tag_name = 97 ∷ 98 ∷ []; tag_addr = 99 ∷ []; tag_port = 56 ∷ 48 ∷ [] }

set_tag-built_example : set_tag (build_full_tag tag).full_tag empty ≡ build_full_tag tag
set_tag-built_example = set_tag-built tag empty (record {
  named = omega arith;
  at_free = ((λ e. omega (arith, e)), ((λ e. omega (arith, e)), tt));
  name_colon_free = ((λ e. omega (arith, e)), ((λ e. omega (arith, e)), tt));
  addressed = omega arith;
  addr_colon_free = ((λ e. omega (arith, e)), tt);
  short = omega arith;
})

full_tag_test : (build_full_tag tag).full_tag ≡ 97 ∷ 98 ∷ 64 ∷ 99 ∷ 58 ∷ 56 ∷ 48 ∷ []
unfolding build_full_tag
full_tag_test = refl

-- Without a port, the whole tag @. after a name is taken for the address.
portless_test : (set_tag (97 ∷ 64 ∷ 46 ∷ []) empty).tag_addr ≡ 97 ∷ 64 ∷ 46 ∷ []
unfolding set_tag
portless_test = refl
