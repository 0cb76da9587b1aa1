-- ===== src/Url.antt =====
-- url.h and url.cpp: cURL. A string is the list of its bytes, which are chars with a sign: from 128
-- on they are negative. The arrays of 3 * size chars are taken to be allocated.
pub mod RoundTrip
use msg_courier.Prelude.{
  ℕ, zero, suc, ◌+◌, ◌-◌, ◌*◌, ◌/◌, ◌%◌, Bool, true, false, ◌&&◌, ◌||◌, List, [], ◌∷◌, ◌++◌, ltb,
  leb, ◌==◌, if◌then◌else◌, length,
}
use msg_courier.Memory.{Outcome, done, fault, ◌>>=◌}
use msg_courier.Buffer.Search.Exact.{c_str}

abbrev within : ℕ → ℕ → ℕ → Bool
within lo hi c = leb lo c && leb c hi

unfoldable pub is_alnum : ℕ → Bool
is_alnum c = within 48 57 c || within 65 90 c || within 97 122 c

-- A digit of the table, in upper case.
unfoldable pub hex : ℕ → ℕ
hex n = if ltb n 10 then n + 48 else n + 55

-- m_pURLEncodeLookupTable: "%" and two digits, and an empty text for digits and letters.
unfoldable pub table : ℕ → List ℕ
unfolding is_alnum hex
table i = if is_alnum i then [] else 37 ∷ (hex (i / 16) ∷ (hex (i % 16) ∷ []))

abbrev pub or_char : ℕ → List ℕ → List ℕ
or_char c [] = c ∷ []
or_char c (p ∷ ps) = p ∷ ps

-- What is written for one char; a negative index is out of bounds.
unfoldable pub encode_char : ℕ → Outcome (List ℕ)
unfolding table
encode_char c = if ltb c 128 then done (or_char c (table c)) else fault

unfoldable pub encode_loop : List ℕ → Outcome (List ℕ)
unfolding encode_char
encode_loop [] = done []
encode_loop (c ∷ cs) = do here ← encode_char c; rest ← encode_loop cs; done (here ++ rest)

-- The NUL behind the n chars that were written, in an array of 3 * size, and the text up to the
-- first NUL.
unfoldable pub ended : ℕ → List ℕ → Outcome (List ℕ)
ended size out = if ltb (length out) (size * 3) then done (c_str out) else fault

unfoldable pub encode : List ℕ → Outcome (List ℕ)
unfolding encode_loop ended
encode s = do out ← encode_loop s; ended (length s) out

-- isxdigit; bytes from 128 on are none.
unfoldable pub is_xdigit : ℕ → Bool
is_xdigit c = within 48 57 c || within 65 70 c || within 97 102 c

unfoldable pub hex_digit : ℕ → ℕ
hex_digit c =
    if within 48 57 c
    then c - 48
    else if within 97 102 c
    then c - 87
    else if within 65 70 c
    then c - 55
    else c

unfoldable pub hex_to_int : ℕ → ℕ → ℕ
unfolding hex_digit
hex_to_int a b = hex_digit b + 16 * hex_digit a

-- A char that begins no pair of digits: '%' is dropped.
unfoldable pub decode_char : ℕ → List ℕ
decode_char c = if c == 37 then [] else if c == 43 then 32 ∷ [] else c ∷ []

-- Behind the last char stands the NUL, which is no digit.
unfoldable pub decode_loop : List ℕ → List ℕ
unfolding decode_char is_xdigit hex_to_int
decode_loop [] = []
decode_loop (c ∷ []) = decode_char c
decode_loop (c ∷ a ∷ []) = decode_char c ++ decode_loop (a ∷ [])
decode_loop (c ∷ a ∷ b ∷ cs) = elim (c == 37 && (is_xdigit a && is_xdigit b)) [
  | true ↦ hex_to_int a b ∷ decode_loop cs
  | false ↦ decode_char c ++ decode_loop (a ∷ b ∷ cs)
]

unfoldable pub decode : List ℕ → Outcome (List ℕ)
unfolding decode_loop ended
decode s = ended (length s) (decode_loop (c_str s))
