-- ===== src/RoutingTag.antt =====
-- routingtag.h and routingtag.cpp: cRoutingTag, the tag name@address:port of a peer. A text is the
-- list of its bytes; string::find gives npos as none.
pub mod Parts
use msg_courier.Prelude.{
  ℕ, zero, suc, ◌+◌, ◌-◌, ◌%◌, Bool, true, false, Option, none, some, List, [], ◌∷◌, ◌++◌, ltb,
  ◌&&◌, ◌==◌, ◌^◌, if◌then◌else◌, take, drop,
}

pub record RoutingTag : Type 0 where
  pub full_tag : List ℕ
  pub tag_name : List ℕ
  pub tag_addr : List ℕ
  pub tag_port : List ℕ

abbrev pub one_further : Option ℕ → Option ℕ
one_further none = none
one_further (some i) = some (suc i)

unfoldable pub find_first : ℕ → List ℕ → Option ℕ
find_first c [] = none
find_first c (x ∷ xs) = let rest = find_first c xs in if x == c then some 0 else one_further rest

abbrev pub at_sign : ℕ
at_sign = 64

abbrev pub colon : ℕ
colon = 58

unfoldable pub build_full_tag : RoutingTag → RoutingTag
build_full_tag t = record t {
  full_tag = t.tag_name ++ (at_sign ∷ (t.tag_addr ++ (colon ∷ t.tag_port)));
}

-- "unknown"
abbrev pub unknown : List ℕ
unknown = 117 ∷ 110 ∷ 107 ∷ 110 ∷ 111 ∷ 119 ∷ 110 ∷ []

-- "0000"
abbrev pub no_port : List ℕ
no_port = 48 ∷ 48 ∷ 48 ∷ 48 ∷ []

-- "0.0.0.0"
abbrev pub no_addr : List ℕ
no_addr = 48 ∷ 46 ∷ 48 ∷ 46 ∷ 48 ∷ 46 ∷ 48 ∷ []

-- An index as the number of 64 bits that it is, where npos is the largest.
abbrev pub position : Option ℕ → ℕ
position none = 2 ^ 64 - 1
position (some i) = i

-- colon_idx - at_idx - 1, as the 32 bits that the int keeps of it.
unfoldable pub ip_len : Option ℕ → Option ℕ → ℕ
ip_len at_idx colon_idx = (position colon_idx + 2 ^ 65 - position at_idx - 1) % 2 ^ 32

-- at_idx + 1, which is 0 after npos.
abbrev pub behind : Option ℕ → ℕ
behind none = 0
behind (some i) = suc i

unfoldable pub name_of : List ℕ → Option ℕ → List ℕ
name_of tag none = unknown
name_of tag (some zero) = unknown
name_of tag (some (suc i)) = take (suc i) tag

unfoldable pub port_of : List ℕ → Option ℕ → List ℕ
port_of tag none = no_port
port_of tag (some zero) = no_port
port_of tag (some (suc i)) = drop (suc (suc i)) tag

abbrev pub plain_addr : List ℕ → Option ℕ → List ℕ
plain_addr tag none = no_addr
plain_addr tag (some i) = tag

unfoldable pub addr_of : List ℕ → Option ℕ → Option ℕ → List ℕ
unfolding ip_len find_first
addr_of tag at_idx colon_idx =
    let n = ip_len at_idx colon_idx in
    if ltb 0 n && ltb n (2 ^ 31)
    then take n (drop (behind at_idx) tag)
    else plain_addr tag (find_first 46 tag)

unfoldable pub set_tag_by : List ℕ → Option ℕ → Option ℕ → RoutingTag → RoutingTag
unfolding name_of port_of addr_of build_full_tag
set_tag_by tag none none t = record t { full_tag = tag; tag_name = tag }
set_tag_by tag none (some j) t = build_full_tag (record t {
  tag_name = name_of tag none;
  tag_addr = addr_of tag none (some j);
  tag_port = port_of tag (some j);
})
set_tag_by tag (some i) colon_idx t = build_full_tag (record t {
  tag_name = name_of tag (some i);
  tag_addr = addr_of tag (some i) colon_idx;
  tag_port = port_of tag colon_idx;
})

unfoldable pub set_tag : List ℕ → RoutingTag → RoutingTag
unfolding set_tag_by find_first
set_tag tag t = set_tag_by tag (find_first at_sign tag) (find_first colon tag) t

pub set_tag_name : List ℕ → RoutingTag → RoutingTag
unfolding build_full_tag
set_tag_name name t = build_full_tag (record t { tag_name = name })

pub set_tag_addr : List ℕ → RoutingTag → RoutingTag
unfolding build_full_tag
set_tag_addr addr t = build_full_tag (record t { tag_addr = addr })

pub set_tag_port : List ℕ → RoutingTag → RoutingTag
unfolding build_full_tag
set_tag_port port t = build_full_tag (record t { tag_port = port })
