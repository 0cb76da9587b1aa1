-- ===== src/HeaderExtract.antt =====
-- headerextract.h and headerextract.cpp: cHeaderExtract, the fields of a header by their names. A
-- string is the list of its bytes; the handlers of exceptions only log.
pub mod Lines
pub mod Header
pub mod Fields
use msg_courier.Prelude.{
  ℕ, suc, ◌+◌, Bool, true, false, Option, none, some, List, [], ◌∷◌, ◌++◌, ◌==◌, if◌then◌else◌,
  take, drop, get_or,
}
use msg_courier.Memory.{Outcome, done, ◌>>=◌, read}
use msg_courier.Buffer.{Buffer, memory}
use msg_courier.Buffer.Search.{find}
use msg_courier.RoutingTag.{find_first}
use msg_courier.Dict.{Dict, lookup, insert}

pub record HeaderExtract : Type 0 where
  pub params : Dict (List ℕ)
  pub header : List ℕ

-- "\r\n\r\n"
abbrev pub end_of_header : List ℕ
end_of_header = 13 ∷ 10 ∷ 13 ∷ 10 ∷ []

-- "\r\nend\r\n"
abbrev pub last_lines : List ℕ
last_lines = 13 ∷ 10 ∷ 101 ∷ 110 ∷ 100 ∷ 13 ∷ 10 ∷ []

-- The colon goes, and the space behind it; line[size()] is the NUL.
unfoldable pub erased : ℕ → List ℕ → List ℕ
erased split line =
    if get_or line (split + 1) 0 == 32
    then take split line ++ drop (split + 2) line
    else take split line ++ drop (split + 1) line

unfoldable pub put_split : Option ℕ → List ℕ → Dict (List ℕ) → Dict (List ℕ)
unfolding erased insert
put_split none line params = params
put_split (some split) line params =
    insert (take split (erased split line)) (drop split (erased split line)) params

unfoldable pub put_line : List ℕ → Dict (List ℕ) → Dict (List ℕ)
unfolding put_split find_first
put_line line params = put_split (find_first 58 line) line params

-- The loop, with the line up to where it stands: a line ends at '\r', and the byte behind it goes.
unfoldable pub lines : List ℕ → List ℕ → Dict (List ℕ) → Dict (List ℕ)
unfolding put_line
lines line [] params = params
lines line (c ∷ []) params = if c == 13 then put_line line params else params
lines line (c ∷ d ∷ rest) params = elim (c == 13) [
  | true ↦ lines [] rest (put_line line params)
  | false ↦ lines (line ++ c ∷ []) (d ∷ rest) params
]

unfoldable pub extracted : List ℕ → HeaderExtract
unfolding lines
extracted header = record { params = lines [] header []; header = header }

-- Find is called with 4 for its offset.
unfoldable pub parse : Buffer → HeaderExtract → Outcome (HeaderExtract × Buffer)
unfolding find extracted
parse b h = do
  (place, b') ← find end_of_header 4 b
  elim place [
    | none ↦ done (record h { params = [] }, b')
    | some len ↦ do raw ← read (memory b'.block) 0 len; done (extracted (raw ++ last_lines), b')
  ]

abbrev value_or_empty : Option (List ℕ) → List ℕ
value_or_empty none = []
value_or_empty (some v) = v

unfoldable pub get_value : List ℕ → HeaderExtract → List ℕ
unfolding lookup
get_value name h = value_or_empty (lookup name h.params)
