-- ===== src/Examples/Stores.antt =====
-- A map of two keys, one with a bar in its value, for keyvalue.cpp, texts for url.cpp and
-- for ReplaceAll of buffer.cpp, and rules for ipaccess.cpp.
use msg_courier.Prelude.{
  ℕ, ◌≡◌, refl, inl, true, none, some, List, [], ◌∷◌, ◌++◌, arith, codes, map,
}
use msg_courier.Memory.{Returns, done, fault, ◌>>=◌}
use msg_courier.Buffer.{Buffer}
use msg_courier.Buffer.Append.{Holds}
use msg_courier.Buffer.ReplaceAll.{replace_all}
use msg_courier.Buffer.ReplaceAll.Byte.{replace_all-Holds}
use msg_courier.Buffer.ReplaceAll.Places.{replaced}
use msg_courier.Buffer.Search.Exact.{c_str}
use msg_courier.Dict.{Dict, order}
use msg_courier.KeyValue.Entries.{Keeps}
use msg_courier.KeyValue.Pieces.{encoded-IsEntry}
use msg_courier.KeyValue.RoundTrip.{restored, restored-Keeps}
use msg_courier.Url.{is_alnum, encode, decode}
use msg_courier.Url.RoundTrip.{decode-encode, encode-fault}
use msg_courier.IpAccess.{inclusion, exclusion, validate}
use msg_courier.IpAccess.Dotted.{dotted}
use msg_courier.IpAccess.Rules.{Rule, line_of, add_all, decision, validate-decision}
use msg_courier.Examples.Parsing.{room, room_lem}

abbrev stored : List ℕ → Buffer
stored s = record {
  block = some (s ++ 0 ∷ 0 ∷ []);
  size = 5;
  tail = 3;
  min_alloc = 32;
  mid_alloc = 256;
}

abbrev entries : Dict (List ℕ)
entries = (codes "host", codes "a|b") ∷ ((codes "user", codes "joe") ∷ [])

abbrev key_values : Dict Buffer
key_values = (codes "host", stored (codes "a|b")) ∷ ((codes "user", stored (codes "joe")) ∷ [])

restored-Keeps_example : Returns (Keeps entries) (restored room true key_values)
unfolding order
restored-Keeps_example =
    restored-Keeps room true entries key_values room_lem ((refl, tt), (tt, tt))
      (
        encoded-IsEntry (codes "host") (codes "a|b") (ground arith) (ground arith) (ground arith),
        (
          encoded-IsEntry (codes "user") (codes "joe") (ground arith) (ground arith) (ground arith),
          tt,
        ),
      )
      (record {
        same = refl;
        valid = (
          record { held = (omega arith, omega arith) },
          (record { held = (omega arith, omega arith) }, tt),
        );
      })

decode-encode_example : (encode (codes "a b/%") >>= decode) ≡ done (c_str (codes "a b/%"))
unfolding is_alnum
decode-encode_example = decode-encode (codes "a b/%") (ground arith) (inl refl)

encode-fault_example : encode (codes " /") ≡ fault
unfolding is_alnum
encode-fault_example = encode-fault (codes " /") (ground arith) (refl, (refl, tt))

-- All of 10.0.*.* but 10.0.0.7
abbrev rules : List Rule
rules =
    record { kind = exclusion; parts = some 10 ∷ (some 0 ∷ (some 0 ∷ (some 7 ∷ []))) }
    ∷ (record { kind = inclusion; parts = some 10 ∷ (some 0 ∷ (none ∷ (none ∷ []))) } ∷ [])

abbrev address : List ℕ
address = 10 ∷ (0 ∷ (3 ∷ (255 ∷ [])))

validate-decision_example :
    (add_all (map line_of rules) [] >>= (λ es. validate (dotted (map (λ a. some a) address)) es))
    ≡ done (decision rules address)
validate-decision_example =
    validate-decision rules address
      (
        record {
          four = refl;
          octets = (omega arith, (omega arith, (omega arith, (omega arith, tt))));
        },
        (record { four = refl; octets = (omega arith, (omega arith, (tt, (tt, tt)))) }, tt),
      )
      (record {
        four = refl;
        octets = (omega arith, (omega arith, (omega arith, (omega arith, tt))));
      })

replace_all-Holds_example :
    Returns
      (λ b. Holds b (replaced 124 (codes "||") (codes "a|b")))
      (replace_all room (124 ∷ []) (codes "||") (stored (codes "a|b")))
replace_all-Holds_example =
    replace_all-Holds room room_lem 124 (codes "||") (stored (codes "a|b")) (codes "a|b")
      (record { valid = record { held = (omega arith, omega arith) }; stands_for = refl })
      (ground arith)
