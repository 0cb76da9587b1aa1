-- ===== src/Rules/Contains.antt =====
-- TestContains of msgrouterrulesengine.cpp, for a message. A std::string is passed by c_str; the
-- place 0 is not taken for a place.
use msg_courier.Prelude.{
  ℕ, ◌≤◌, ◌<◌, ◌≡◌, refl, Bool, true, false, ◌&&◌, Option, none, some, List, ltb, codes, drop,
  length, arith,
}
use msg_courier.Memory.{Outcome, done, ◌>>=◌, Returns}
use msg_courier.Buffer.Append.{Holds}
use msg_courier.Buffer.Search.{strstr, find}
use msg_courier.Buffer.Search.Exact.{c_str, find-done}
use msg_courier.Msg.{Msg}
use msg_courier.Rules.{Rule, Location, loc_notset, header, payload, status, all_parts}

abbrev pub pattern_of : Rule → List ℕ
pattern_of r = c_str (codes r.value)

abbrev pub is_place : Option ℕ → Bool
is_place none = false
is_place (some i) = true

-- idx > 0 && idx < GetHeaderSize()
abbrev pub in_header : ℕ → Option ℕ → Bool
in_header size none = false
in_header size (some i) = ltb 0 i && ltb i size

abbrev pub behind_start : Option ℕ → Bool
behind_start none = false
behind_start (some i) = ltb 0 i

unfoldable pub test_contains_at : Location → Rule → Msg → Outcome (Bool × Msg)
unfolding find strstr
test_contains_at status r m =
    done (is_place (strstr (pattern_of r) (c_str (codes m.status_line)) 0), m)
test_contains_at header r m = do
  (place, b) ← find (pattern_of r) 0 m.buffer
  done (in_header m.header_size place, record m { buffer = b })
test_contains_at payload r m = do
  (place, b) ← find (pattern_of r) m.header_size m.buffer
  done (behind_start place, record m { buffer = b })
test_contains_at loc_notset r m = done (false, m)
test_contains_at all_parts r m = done (false, m)

unfoldable pub test_contains : Rule → Msg → Outcome (Bool × Msg)
unfolding test_contains_at
test_contains r m = test_contains_at r.location r m

-- What a rule says of a text and of a status line.
abbrev pub answer : Location → Rule → List ℕ → Msg → Bool
answer status r xs m = is_place (strstr (pattern_of r) (c_str (codes m.status_line)) 0)
answer header r xs m = in_header m.header_size (strstr (pattern_of r) (c_str xs) 0)
answer payload r xs m =
    behind_start (strstr (pattern_of r) (c_str (drop m.header_size xs)) m.header_size)
answer loc_notset r xs m = false
answer all_parts r xs m = false

-- Where the buffer of a message holds a text and the header is inside it, TestContains returns and
-- keeps the text, and answers by the place of the pattern in the part that the rule names.
pub test_contains-Holds :
    (r : Rule) (m : Msg) (xs : List ℕ)
    → Holds m.buffer xs
    → 0 < length xs
    → m.header_size ≤ length xs
    → Returns (λ s. (s.0 ≡ answer r.location r xs m) × Holds s.1.buffer xs) (test_contains r m)
unfolding test_contains test_contains_at
test_contains-Holds r m xs holds some_text inside = by_location r.location
  where
    by_location :
        (l : Location)
        → Returns (λ s. (s.0 ≡ answer l r xs m) × Holds s.1.buffer xs) (test_contains_at l r m)
    by_location status = (refl, holds)
    by_location loc_notset = (refl, holds)
    by_location all_parts = (refl, holds)
    by_location header =
        let (b, found, kept) =
          find-done (pattern_of r) 0 m.buffer xs holds some_text (omega arith) in
        rw (found, ◌>>=◌) (refl, kept)
    by_location payload =
        let (b, found, kept) =
          find-done (pattern_of r) m.header_size m.buffer xs holds some_text inside in
        rw (found, ◌>>=◌) (refl, kept)
