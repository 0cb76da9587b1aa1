-- ===== src/Base64.antt =====
-- base64.h and base64.cpp: cBase64 over a cBuffer. char_array_3 and char_array_4 are the list of
-- their first i entries; the others are not read before they are set. The bytes that the loops
-- store at buffer[cp] are written to m_InternalBuffer at once.
pub mod Words
pub mod Reference
pub mod RoundTrip
pub mod Letters
pub mod Object
use Prim.Native.Char.{code}
use Prim.Native.String.{String}
use msg_courier.Prelude.{
  ℕ, zero, suc, ◌+◌, ◌-◌, ◌*◌, ◌/◌, ◌%◌, bit_and, Bool, true, false, not, ◌&&◌, ◌||◌, Option, none,
  some, List, [], ◌∷◌, ◌++◌, map, leb, ◌==◌, if◌then◌else◌, length, take, get_or, replicate,
}
use msg_courier.Memory.{Outcome, done, ◌>>=◌, Malloc, read, write}
use msg_courier.Buffer.{Buffer, Code, count, new, reset, memory, set_buffer_size, replace_with}

abbrev codes : String → List ℕ
codes String.[] = []
codes (String.◌∷◌ c s) = code c ∷ codes s

-- base64[65]: the letters and the NUL behind them.
alphabet : List ℕ
alphabet = codes "ABCDEFGHIJKLMNOPQRSTUVWXYZabcdefghijklmnopqrstuvwxyz0123456789+/" ++ 0 ∷ []

-- isalnum in the C locale.
is_alnum : ℕ → Bool
is_alnum c = (leb b'0' c && leb c b'9') || (leb b'A' c && leb c b'Z') || (leb b'a' c && leb c b'z')

pub is_base64 : ℕ → Bool
unfolding is_alnum
is_base64 c = is_alnum c || c == b'+' || c == b'/'

-- The result is stored in an unsigned char: -1 becomes 255.
find_in : List ℕ → ℕ → ℕ → ℕ
find_in [] i c = 255
find_in (x ∷ xs) i c = if x == c then i else find_in xs (i + 1) c

pub find : ℕ → ℕ
unfolding find_in alphabet
find c = find_in alphabet 0 c

-- char_array_3 from char_array_4, and back.
pub triple : ℕ → ℕ → ℕ → ℕ → List ℕ
triple a b c d =
    ((a * 4 + bit_and b 0x30 / 16) % 256)
    ∷ ((bit_and b 0xf * 16 + bit_and c 0x3c / 4) % 256)
    ∷ ((bit_and c 0x3 * 64 + d) % 256)
    ∷ []

pub quad : ℕ → ℕ → ℕ → List ℕ
quad a b c =
    (bit_and a 0xfc / 4)
    ∷ (bit_and a 0x03 * 16 + bit_and b 0xf0 / 16)
    ∷ (bit_and b 0x0f * 4 + bit_and c 0xc0 / 64)
    ∷ bit_and c 0x3f
    ∷ []

pub letter : ℕ → ℕ
unfolding alphabet
letter i = get_or alphabet i 0

-- A full group is worked off, one that is not full waits. The entries past the group are 0.
entry : List ℕ → ℕ → ℕ
entry g i = get_or g i 0

record Loop : Type 0 where
  group : List ℕ
  out : List ℕ

letters_of : List ℕ → List ℕ
unfolding quad letter entry
letters_of g = map letter (quad (entry g 0) (entry g 1) (entry g 2))

encode_byte : Loop → ℕ → Loop
unfolding letters_of
encode_byte s c =
    let g = s.group ++ c ∷ [] in
    if length g == 3
    then record { group = []; out = s.out ++ letters_of g }
    else record { group = g; out = s.out }

encode_loop : Loop → List ℕ → Loop
unfolding encode_byte
encode_loop s [] = s
encode_loop s (c ∷ cs) = encode_loop (encode_byte s c) cs

encode_end : Loop → List ℕ
unfolding letters_of
encode_end s =
    let i = length s.group in
    if i == 0 then s.out else s.out ++ (take (i + 1) (letters_of s.group) ++ replicate (3 - i) b'=')

pub encoded : List ℕ → List ℕ
unfolding encode_loop encode_end
encoded xs = encode_end (encode_loop (record { group = []; out = [] }) xs)

bytes_of : List ℕ → List ℕ
unfolding triple entry
bytes_of g = triple (find (entry g 0)) (find (entry g 1)) (find (entry g 2)) (find (entry g 3))

decode_char : Loop → ℕ → Loop
unfolding bytes_of
decode_char s c =
    let g = s.group ++ c ∷ [] in
    if length g == 4
    then record { group = []; out = s.out ++ bytes_of g }
    else record { group = g; out = s.out }

pub accepts : ℕ → Bool
unfolding is_base64
accepts c = not (c == b'=') && is_base64 c

-- The loop stops at the first '=' or other character that is not of base64.
decode_loop : Loop → List ℕ → Loop
unfolding decode_char
decode_loop s [] = s
decode_loop s (c ∷ cs) = elim (accepts c) [ true ↦ decode_loop (decode_char s c) cs | false ↦ s ]

decode_end : Loop → List ℕ
unfolding bytes_of
decode_end s =
    let i = length s.group in if i == 0 then s.out else s.out ++ take (i - 1) (bytes_of s.group)

pub decoded : List ℕ → List ℕ
unfolding decode_loop accepts decode_end
decoded cs = decode_end (decode_loop (record { group = []; out = [] }) cs)

-- The object: m_InternalBuffer. m_status is HRC_BASE64_OK throughout.
pub record Base64 : Type 0 where
  pub internal : Buffer

pub new_base64 : Base64
new_base64 = record { internal = new }

-- The rest of either method, over the function that its loops compute and the size it asks for.
recode : (List ℕ → List ℕ) → ℕ → Malloc → Base64 → Buffer → Outcome (Base64 × Buffer)
recode f size malloc s b = do
  sized ← set_buffer_size malloc size (reset s.internal)
  src ← read (memory b.block) 0 b.tail
  m ← write (memory sized.block) 0 (f src)
  (code', b') ← replace_with malloc (some m) (count (length (f src))) b
  done (record { internal = record sized { block = some m } }, b')

pub encode : Malloc → Base64 → Buffer → Outcome (Base64 × Buffer)
unfolding recode
encode malloc s b = recode encoded (b.tail * 2) malloc s b

pub decode : Malloc → Base64 → Buffer → Outcome (Base64 × Buffer)
unfolding recode
decode malloc s b = recode decoded b.tail malloc s b
