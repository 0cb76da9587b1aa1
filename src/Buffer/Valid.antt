-- ===== src/Buffer/Valid.antt =====
-- The state in which cBuffer keeps its fields between calls.
use msg_courier.Prelude.{ℕ, ◌≤◌, ◌<◌, ◌≡◌, refl, Option, none, some, arith, length}
use msg_courier.Memory.{Block}
use msg_courier.Buffer.{Buffer, new, reset}

-- Without a block there is no size and no content; else the tail leaves room for a NUL.
abbrev pub Held : Option Block → ℕ → ℕ → Type 0
Held none size tail = (size ≡ 0) × (tail ≡ 0)
Held (some m) size tail = (size ≤ length m) × (tail < size)

pub record IsValid (b : Buffer) : Type 0 where
  pub held : Held b.block b.size b.tail

pub new-IsValid : IsValid new
unfolding new
new-IsValid = record { held = (refl, refl) }

reset-Held : (blk : Option Block) (size tail : ℕ) → Held blk size tail → Held blk size 0
reset-Held none size tail h = (h.0, refl)
reset-Held (some m) size tail h = (h.0, omega arith)

pub reset-IsValid : (b : Buffer) → IsValid b → IsValid (reset b)
unfolding reset
reset-IsValid b v = record { held = reset-Held b.block b.size b.tail v.held }

-- A smaller tail is as good.
pub shrink-Held :
    (blk : Option Block) (size tail k : ℕ) → Held blk size tail → k ≤ tail → Held blk size k
shrink-Held none size tail k h le = (h.0, omega arith)
shrink-Held (some m) size tail k h le = (h.0, omega arith)

pub inside-Held : (blk : Option Block) (size tail : ℕ) → Held blk size tail → 0 < tail → tail < size
inside-Held none size tail h lt = absurd (omega arith)
inside-Held (some m) size tail h lt = h.1
