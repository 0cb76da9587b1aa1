-- ===== src/Memory.antt =====
-- The C memory that buffer.cpp and base64.cpp work on: blocks of bytes, the bounds that the
-- functions of <string.h> must keep, and the ways in which a call ends. `malloc` is a parameter.
pub mod Laws
pub mod Vector
use msg_courier.Prelude.{
  ℕ, zero, suc, ◌+◌, ◌-◌, ◌≡◌, refl, Option, none, some, List, [], ◌∷◌, ◌++◌, leb, if◌then◌else◌,
  length, take, drop,
}

-- `throws` is THROW(MEMALLOC); `fault` is undefined behaviour, such as an access out of bounds.
pub data Outcome {ℓ} (A : Type ℓ) : Type ℓ where
  done : A → Outcome A
  throws : Outcome A
  fault : Outcome A

infixl 5 ◌>>=◌
abbrev pub ◌>>=◌ {ℓ κ} : {A : Type ℓ} {B : Type κ} → Outcome A → (A → Outcome B) → Outcome B
done a >>= f = f a
throws >>= f = throws
fault >>= f = fault

-- The call returns, and its result has the property.
abbrev pub Returns {ℓ} : {A : Type ℓ} → (A → Type 0) → Outcome A → Type 0
Returns P (done a) = P a
Returns P throws = ⊥
Returns P fault = ⊥

pub Returns-bind {ℓ κ} :
    {A : Type ℓ} {B : Type κ} (P : A → Type 0) (Q : B → Type 0) (m : Outcome A) (f : A → Outcome B)
    → Returns P m
    → ((a : A) → P a → Returns Q (f a))
    → Returns Q (m >>= f)
Returns-bind P Q (done a) f h k = k a h
Returns-bind P Q throws f h k = absurd h
Returns-bind P Q fault f h k = absurd h

pub Returns-map {ℓ} :
    {A : Type ℓ} (P Q : A → Type 0) (m : Outcome A)
    → Returns P m
    → ((a : A) → P a → Returns Q (done a))
    → Returns Q m
Returns-map P Q (done a) h k = k a h
Returns-map P Q throws h k = absurd h
Returns-map P Q fault h k = absurd h

pub Returns-done {ℓ} :
    {A : Type ℓ} (P : A → Type 0) (m : Outcome A) → Returns P m → (a : A) × (m ≡ done a) × P a
Returns-done P (done a) h = (a, refl, h)
Returns-done P throws h = absurd h
Returns-done P fault h = absurd h

-- What comes after a call that returns.
pub Returns-then {ℓ κ} :
    {A : Type ℓ} {B : Type κ} (P : A → Type 0) (m : Outcome A) (f : A → Outcome B) (o : Outcome B)
    → Returns P m
    → ((a : A) → P a → f a ≡ o)
    → (m >>= f) ≡ o
Returns-then P (done a) f o h k = k a h
Returns-then P throws f o h k = absurd h
Returns-then P fault f o h k = absurd h

pub Returns-both {ℓ} :
    {A : Type ℓ} (P Q : A → Type 0) (m : Outcome A)
    → Returns P m
    → Returns Q m
    → Returns (λ a. P a × Q a) m
Returns-both P Q (done a) h k = (h, k)
Returns-both P Q throws h k = absurd h
Returns-both P Q fault h k = absurd h

abbrev pub Block : Type 0
Block = List ℕ

-- malloc(n): none for NULL, else a block with contents that nothing is known of.
abbrev pub Malloc : Type 0
Malloc = ℕ → Option Block

-- The allocator has memory left, and hands out blocks of the size asked for.
abbrev pub Allocates : Malloc → Type 0
Allocates malloc = (n : ℕ) → (b : Block) × (malloc n ≡ some b) × (length b ≡ n)

pub allocate : Malloc → ℕ → Outcome Block
allocate malloc n = elim (malloc n) [ none ↦ throws | some b ↦ done b ]

-- The bytes that memcpy reads: n of them from offset i.
unfoldable pub read : Block → ℕ → ℕ → Outcome (List ℕ)
read m i n = if leb (i + n) (length m) then done (take n (drop i m)) else fault

abbrev pub overwrite : Block → ℕ → List ℕ → Block
overwrite m i xs = take i m ++ (xs ++ drop (i + length xs) m)

-- The bytes that memcpy writes at offset i.
unfoldable pub write : Block → ℕ → List ℕ → Outcome Block
write m i xs = if leb (i + length xs) (length m) then done (overwrite m i xs) else fault

-- `to - from` as the count of a copy: a negative int is a size_t that no object has.
unfoldable pub span : ℕ → ℕ → Outcome ℕ
span from to = if leb from to then done (to - from) else fault

pub strlen : List ℕ → Outcome ℕ
strlen [] = fault
strlen (zero ∷ xs) = done 0
strlen (suc c ∷ xs) = do n ← strlen xs; done (suc n)
