-- ===== src/Memory/Laws.antt =====
-- What a copy within bounds leaves in a block.
use msg_courier.Prelude.{
  ℕ, ◌+◌, ◌-◌, ◌≤◌, ◌<◌, ◌≡◌, ◌∙◌, ap, List, ◌++◌, arith, length, take, drop, le→leb, lt→leb,
  length-append, length-take, length-drop, take-append_left, take-append_right, take-append_le,
  take-take,
}
use msg_courier.Memory.{
  done, fault, Block, Malloc, Allocates, allocate, read, overwrite, write, span,
}

pub allocate-done :
    (malloc : Malloc) (n : ℕ)
    → Allocates malloc
    → (b : Block) × (allocate malloc n ≡ done b) × (length b ≡ n)
unfolding allocate
allocate-done malloc n works = let (b, e, l) = works n in (b, rw (e, allocate), l)

pub read-done : (m : Block) (i n : ℕ) → i + n ≤ length m → read m i n ≡ done (take n (drop i m))
unfolding read
read-done m i n h = rw (le→leb (i + n) (length m) h)

pub write-done :
    (m : Block) (i : ℕ) (xs : List ℕ)
    → i + length xs ≤ length m
    → write m i xs ≡ done (overwrite m i xs)
unfolding write
write-done m i xs h = rw (le→leb (i + length xs) (length m) h)

pub span-done : (from to : ℕ) → from ≤ to → span from to ≡ done (to - from)
unfolding span
span-done from to h = rw (le→leb from to h)

pub length-slice : (m : Block) (i n : ℕ) → i + n ≤ length m → length (take n (drop i m)) ≡ n
length-slice m i n h = length-take n (drop i m) (omega (arith, length-drop i m))

pub length-overwrite :
    (m : Block) (i : ℕ) (xs : List ℕ)
    → i + length xs ≤ length m
    → length (overwrite m i xs) ≡ length m
length-overwrite m i xs h = omega (
  arith,
  length-append (take i m) (xs ++ drop (i + length xs) m),
  length-append xs (drop (i + length xs) m),
  length-take i m (omega arith),
  length-drop (i + length xs) m,
)

-- The block up to the end of what was written.
pub take-overwrite :
    (m : Block) (i n : ℕ) (xs : List ℕ)
    → length xs ≡ n
    → i + n ≤ length m
    → take (i + n) (overwrite m i xs) ≡ take i m ++ xs
take-overwrite m i n xs l h =
    take-append_right i n (take i m) (xs ++ drop (i + length xs) m) (length-take i m (omega arith))
    ∙ ap (◌++◌ (take i m)) (take-append_left n xs (drop (i + length xs) m) l)

-- Nothing below the offset changes.
pub take-overwrite_below :
    (m : Block) (j i : ℕ) (xs : List ℕ)
    → j ≤ i
    → i ≤ length m
    → take j (overwrite m i xs) ≡ take j m
take-overwrite_below m j i xs h k =
    take-append_le j (take i m) (xs ++ drop (i + length xs) m) (omega (arith, length-take i m k))
    ∙ shorter
  where
    shorter : take j (take i m) ≡ take j m
    shorter = take-take j i m h

-- What stands at the start of a block after a copy to offset 0.
pub take-overwrite_start :
    (m : Block) (n : ℕ) (xs : List ℕ) → length xs ≡ n → take n (overwrite m 0 xs) ≡ xs
take-overwrite_start m n xs l = take-append_left n xs (drop (0 + length xs) m) l

pub read_start-done : (m : Block) (n : ℕ) → n ≤ length m → read m 0 n ≡ done (take n m)
read_start-done m n h = read-done m 0 n (omega arith)

pub write_start-done :
    (m : Block) (xs : List ℕ) → length xs ≤ length m → write m 0 xs ≡ done (overwrite m 0 xs)
write_start-done m xs h = write-done m 0 xs (omega arith)

-- A negative count is an access out of bounds.
pub span-fault : (from to : ℕ) → to < from → span from to ≡ fault
unfolding span
span-fault from to h = rw (lt→leb from to h)
