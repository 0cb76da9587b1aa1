-- ===== src/KeyValue.antt =====
-- keyvalue.h and keyvalue.cpp: cKeyValue, a map of keys to buffers, and the stream key|value|... in
-- which it is stored. Each entry owns its buffer. `encoded` is bEncode and bEncoded.
pub mod Entries
pub mod Stream
pub mod Pieces
pub mod RoundTrip
use msg_courier.Prelude.{
  ℕ, zero, suc, ◌+◌, ◌-◌, Bool, true, false, Option, none, some, List, [], ◌∷◌, ◌++◌, drop, length,
}
use msg_courier.Memory.{Outcome, done, fault, ◌>>=◌, Block, Malloc, read}
use msg_courier.Buffer.{Buffer, count, memory, new, reset, make_string, replace_with, find_char}
use msg_courier.Buffer.Search.Exact.{c_str}
use msg_courier.Base64.{new_base64, encode, decode}
use msg_courier.Dict.{Dict, lookup, insert}

-- '|'
abbrev pub bar : ℕ
bar = 124

abbrev pub owned : Option Buffer → Buffer
owned none = new
owned (some b) = b

-- Reset; the buffers go with the map.
reset_map : Dict Buffer → Dict Buffer
reset_map m = []

-- Count
size_of : Dict Buffer → ℕ
size_of m = length m

-- pKey ends at its first NUL. The buffer of the entry, or a new one, takes the value.
unfoldable pub set : Malloc → List ℕ → Option Block → ℕ → Dict Buffer → Outcome (Dict Buffer)
unfolding lookup insert
set malloc key value n m = do
  (code, b) ← replace_with malloc value (count n) (owned (lookup (c_str key) m))
  done (insert (c_str key) b m)

get_by : Malloc → Option Buffer → Buffer → Outcome Buffer
unfolding reset
get_by malloc none into = done (reset into)
get_by malloc (some b) into = do
  b' ← make_string b
  (code, into') ← replace_with malloc b'.block (count b'.tail) into
  done into'

-- Get; the NUL that cstr writes behind the contents of the entry is not kept.
unfoldable pub get : Malloc → List ℕ → Dict Buffer → Buffer → Outcome Buffer
unfolding get_by lookup
get malloc key m into = get_by malloc (lookup (c_str key) m) into

unfoldable pub decode_if : Malloc → Bool → Buffer → Outcome Buffer
decode_if malloc true b = do (s, b') ← decode malloc new_base64 b; done b'
decode_if malloc false b = done b

unfoldable pub encode_if : Malloc → Bool → Buffer → Outcome Buffer
encode_if malloc true b = do (s, b') ← encode malloc new_base64 b; done b'
encode_if malloc false b = done b

-- The value between two bars, which Set takes from a buffer of its own.
unfoldable pub take_value : Malloc → Bool → Block → ℕ → List ℕ → Dict Buffer → Outcome (Dict Buffer)
unfolding decode_if set
take_value malloc encoded from n key m = do
  (code, b) ← replace_with malloc (some from) (count n) new
  b₁ ← decode_if malloc encoded b
  b₂ ← make_string b₁
  set malloc key b₂.block b₂.tail m

-- The loop, with the rounds left: `value` says whether a value comes next, and begins at `mark`.
unfoldable pub parse_loop :
    Malloc → Bool → ℕ → Buffer → Bool → ℕ → List ℕ → Dict Buffer → Outcome (Dict Buffer)
unfolding take_value
parse_loop malloc encoded zero b value mark key m = fault
parse_loop malloc encoded (suc rounds) b value mark key m = do
  found ← find_char bar mark b
  elim found [
    | none ↦ done m
    | some i ↦ do
      b' ← make_string b
      elim value [
        | false ↦ do
          piece ← read (memory b'.block) mark (i - mark)
          parse_loop malloc encoded rounds b' true (i + 1) (key ++ piece) m
        | true ↦ do
          m' ← take_value malloc encoded (drop mark (memory b'.block)) (i - mark) key m
          parse_loop malloc encoded rounds b' false (i + 1) [] m'
      ]
  ]

-- There is one round for each bar, and a last one that finds none.
unfoldable pub parse : Malloc → Bool → Option Block → ℕ → Dict Buffer → Outcome (Dict Buffer)
unfolding parse_loop
parse malloc encoded stream n m = do
  (code, b) ← replace_with malloc stream (count n) new
  parse_loop malloc encoded (b.tail + 1) b false 0 [] m

-- The loop of GetStream, with what has been written and `temp`.
unfoldable pub stream_loop :
    Malloc → Bool → Dict Buffer → List ℕ → Buffer → Outcome (Dict Buffer × List ℕ)
unfolding encode_if
stream_loop malloc encoded [] out temp = done ([], out)
stream_loop malloc encoded ((k, b) ∷ m) out temp = do
  b' ← make_string b
  (code, t) ← replace_with malloc b'.block (count b'.tail) temp
  t₁ ← encode_if malloc encoded t
  t₂ ← make_string t₁
  written ← read (memory t₂.block) 0 t₂.tail
  (m', out') ← stream_loop malloc encoded m (out ++ (k ++ (bar ∷ (written ++ (bar ∷ []))))) t₂
  done ((k, b') ∷ m', out')

unfoldable pub get_stream : Malloc → Bool → Dict Buffer → List ℕ → Outcome (Dict Buffer × List ℕ)
unfolding stream_loop
get_stream malloc encoded m out = stream_loop malloc encoded m out new
