-- ===== src/Buffer.antt =====
-- buffer.h and buffer.cpp: cBuffer, a growing block of bytes with a write position. The fields are
-- m_pBuffer (none for NULL), m_iBufferSize, m_iTail, m_minAlloc and m_midAlloc. The ints are taken
-- for the numbers that they hold while they are not negative; a length of -1 is `to_nul`. A
-- function that returns BUFFER_NO_ERROR on every path returns no code here.
pub mod Valid
pub mod Grow
pub mod Append
pub mod Copy
pub mod Insert
pub mod Remove
pub mod ReplaceAll
pub mod Reverse
pub mod Cleanup
pub mod Search
pub mod Text
use msg_courier.Prelude.{
  ℕ, zero, suc, ◌+◌, ◌-◌, ◌*◌, ◌/◌, ◌%◌, ◌^◌, Bool, true, false, ◌&&◌, ◌||◌, Option, none, some,
  List, [], ◌∷◌, ltb, leb, ◌==◌, if◌then◌else◌, get_elem?, take,
}
use msg_courier.Memory.{
  Outcome, done, fault, ◌>>=◌, Block, Malloc, allocate, read, write, span, strlen,
}

pub record Buffer : Type 0 where
  pub block : Option Block
  pub size : ℕ
  pub tail : ℕ
  pub min_alloc : ℕ
  pub mid_alloc : ℕ

pub data Code : Type 0 where
  no_error region_outofbounds param_invalid is_empty : Code

-- The int iLength of Append, Insert, Prepend and ReplaceWith.
pub data Len : Type 0 where
  to_nul : Len
  count : ℕ → Len

-- What m_pBuffer holds up to an offset, and the memory behind it; a copy of no bytes may name NULL.
abbrev pub content : Option Block → ℕ → List ℕ
content none n = []
content (some m) n = take n m

abbrev pub memory : Option Block → Block
memory none = []
memory (some m) = m

-- The bytes that the buffer stands for.
abbrev pub bytes : Buffer → List ℕ
bytes b = content b.block b.tail

unfoldable pub new : Buffer
new = record { block = none; size = 0; tail = 0; min_alloc = 32; mid_alloc = 256 }

pub set_mem_algo : ℕ → ℕ → Buffer → Buffer
set_mem_algo least middle b = record b { min_alloc = least; mid_alloc = middle }

-- sizeof(long) is 8.
pub adjust_size : Buffer → ℕ → ℕ
adjust_size b n =
    if leb (n + 8) b.min_alloc
    then b.min_alloc
    else if ltb b.min_alloc (n + 8) && ltb (n + 8) b.mid_alloc
    then (n + 8) * 3 / 2
    else n + 8

-- The contents move to a larger block.
reallocate : Malloc → ℕ → Block → Buffer → Outcome Buffer
reallocate malloc n m b = do
  fresh ← allocate malloc (adjust_size b n)
  old ← read m 0 b.size
  copied ← write fresh 0 old
  done (record b { block = some copied; size = adjust_size b n })

size_block : Malloc → ℕ → Buffer → Option Block → Outcome Buffer
unfolding reallocate
size_block malloc n b (some m) = if leb b.size n then reallocate malloc n m b else done b
size_block malloc n b none = do
  fresh ← allocate malloc (adjust_size b n)
  done (record b { block = some fresh; size = adjust_size b n; tail = 0 })

pub set_buffer_size : Malloc → ℕ → Buffer → Outcome Buffer
unfolding size_block
set_buffer_size malloc n b = size_block malloc n b b.block

pub set_buffer_length : Malloc → ℕ → Buffer → Outcome Buffer
set_buffer_length malloc n b = do
  sized ← set_buffer_size malloc n b
  done (record sized { tail = n })

unfoldable pub get_buffer_count : Buffer → ℕ
get_buffer_count b = b.tail

pub flush : Buffer → Buffer
flush b = record b { block = none; size = 0; tail = 0 }

unfoldable pub reset : Buffer → Buffer
reset b = record b { tail = 0 }

terminate : Buffer → Option Block → Outcome Buffer
terminate b none = done b
terminate b (some m) = do m' ← write m b.tail (0 ∷ []); done (record b { block = some m' })

pub make_string : Buffer → Outcome Buffer
unfolding terminate
make_string b = terminate b b.block

unfoldable pub resolve : Block → Len → Outcome ℕ
resolve p to_nul = strlen p
resolve p (count n) = done n

-- `iLen >= m_iBufferSize - m_iTail` and the new size `iLen - (m_iBufferSize - m_iTail) +
-- m_iBufferSize`, with the ints regrouped so that no difference is taken: n is iLen + m_iTail.
ensure_room : Malloc → ℕ → Buffer → Outcome Buffer
ensure_room malloc n b = if leb b.size n then set_buffer_size malloc n b else done b

append_bytes : Malloc → Block → ℕ → Buffer → Outcome Buffer
unfolding ensure_room
append_bytes malloc p n b = do
  grown ← ensure_room malloc (n + b.tail) b
  src ← read p 0 n
  m ← write (memory grown.block) grown.tail src
  make_string (record grown { block = some m; tail = grown.tail + n })

is_zero : Len → Bool
is_zero to_nul = false
is_zero (count n) = n == 0

pub append : Malloc → Option Block → Len → Buffer → Outcome (Code × Buffer)
unfolding is_zero resolve
append malloc src len b = if is_zero len then done (no_error, b) else elim src [
  | none ↦ done (param_invalid, b)
  | some p ↦ do n ← resolve p len; b' ← append_bytes malloc p n b; done (no_error, b')
]

pub replace_with : Malloc → Option Block → Len → Buffer → Outcome (Code × Buffer)
unfolding resolve
replace_with malloc src len b = elim src [
  | none ↦ done (no_error, reset b)
  | some p ↦ do n ← resolve p len; append malloc (some p) (count n) (reset b)
]

-- The bytes before the index are copied last, unless there are none.
copy_front : ℕ → Block → Block → Outcome Block
copy_front i old m = if i == 0 then done m else (do front ← read old 0 i; write m 0 front)

-- Room for the bytes, the tail and a NUL is made in a new block.
insert_realloc : Malloc → ℕ → Block → ℕ → Buffer → Outcome Buffer
insert_realloc malloc i p n b = do
  let new_size = adjust_size b (n + b.tail + 1)
  fresh ← allocate malloc (new_size + 1)
  k ← span i b.tail
  rest ← read (memory b.block) i k
  m₁ ← write fresh (i + n) rest
  src ← read p 0 n
  m₂ ← write m₁ i src
  m₃ ← copy_front i (memory b.block) m₂
  done (record b { block = some m₃; size = new_size })

insert_in_place : ℕ → Block → ℕ → Buffer → Outcome Buffer
insert_in_place i p n b = do
  k ← span i b.tail
  rest ← read (memory b.block) i k
  m₁ ← write (memory b.block) (i + n) rest
  src ← read p 0 n
  m₂ ← write m₁ i src
  done (record b { block = some m₂ })

pub insert : Malloc → ℕ → Block → Len → Buffer → Outcome Buffer
unfolding resolve
insert malloc i p len b = do
  n ← resolve p len
  b' ←
      if ltb b.size (n + b.tail + 1) then insert_realloc malloc i p n b else insert_in_place i p n b
  make_string (record b' { tail = b'.tail + n })

pub prepend : Malloc → Option Block → Len → Buffer → Outcome (Code × Buffer)
unfolding resolve
prepend malloc src len b = elim src [
  | none ↦ done (param_invalid, b)
  | some p ↦ do n ← resolve p len; b' ← insert malloc 0 p (count n) b; done (no_error, b')
]

-- The copy is skipped where the region ends at the tail.
close_gap : ℕ → ℕ → Buffer → Outcome Buffer
close_gap from to b = if b.tail == from then done b else do
  k ← span from b.tail
  moved ← read (memory b.block) from k
  m ← write (memory b.block) to moved
  done (record b { block = some m })

pub remove : ℕ → ℕ → Buffer → Outcome (Code × Buffer)
remove i length_asked b =
    if b.tail == 0
    then done (is_empty, b)
    else let n = if ltb b.size length_asked then b.size else length_asked in
      if n == 0 || ltb b.size (n + i)
      then done (region_outofbounds, b)
      else do b' ← close_gap (n + i) i b; done (no_error, record b' { tail = b'.tail - n })

-- The loop of FindChar, with the rounds left.
find_from : Block → ℕ → ℕ → ℕ → Outcome (Option ℕ)
find_from m ch i zero = done none
find_from m ch i (suc rounds) = elim (get_elem? m i) [
  | none ↦ fault
  | some c ↦ elim (c == ch) [ true ↦ done (some i) | false ↦ find_from m ch (i + 1) rounds ]
]

-- none is -1.
pub find_char : ℕ → ℕ → Buffer → Outcome (Option ℕ)
find_char ch start b = find_from (memory b.block) ch start (b.tail - start)

-- *pKey is a signed char: a byte from 128 on is added as itself less 256, mod 2 ^ 32.
hash_byte : ℕ → ℕ → ℕ
hash_byte hash c = (hash * 32 + hash + (if ltb c 128 then c else c + 2 ^ 32 - 256)) % 2 ^ 32

hash_loop : ℕ → List ℕ → ℕ
hash_loop hash [] = hash
hash_loop hash (c ∷ cs) = hash_loop (hash_byte hash c) cs

pub hash_key : Buffer → ℕ
hash_key b = hash_loop 0 (bytes b)
