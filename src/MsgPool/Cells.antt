-- ===== src/MsgPool/Cells.antt =====
-- The messages in memory, by their addresses.
use msg_courier.Prelude.{
  ℕ, ◌≡◌, ◌≢◌, refl, sym, List, [], ◌∷◌, ◌++◌, map, Option, none, some, arith, ◌==◌, if◌then◌else◌,
}
use msg_courier.Msg.{Msg}

pub record Cell : Type 0 where
  pub ptr : ℕ
  pub msg : Msg

unfoldable pub find : ℕ → List Cell → Option Msg
find p [] = none
find p (c ∷ cs) = if c.ptr == p then some c.msg else find p cs

unfoldable pub update : ℕ → (Msg → Msg) → List Cell → List Cell
update p f [] = []
update p f (c ∷ cs) =
    let rest = update p f cs in if c.ptr == p then record c { msg = f c.msg } ∷ cs else c ∷ rest

abbrev pub ptrs : List Cell → List ℕ
ptrs cs = map (λ c. c.ptr) cs

-- Nothing in the list is the number.
abbrev pub Absent : ℕ → List ℕ → Type 0
Absent p [] = Unit {0}
Absent p (q ∷ qs) = (q ≢ p) × Absent p qs

abbrev pub Distinct : List ℕ → Type 0
Distinct [] = Unit {0}
Distinct (p ∷ ps) = Absent p ps × Distinct ps

pub find-update_self :
    (p : ℕ) (f : Msg → Msg) (cs : List Cell) (m : Msg)
    → find p cs ≡ some m
    → find p (update p f cs) ≡ some (f m)
unfolding find update
find-update_self p f [] m h = ground arith
find-update_self p f (c ∷ cs) m h = ground (arith, find-update_self p f cs m)

pub find-update_ne :
    (p q : ℕ) (f : Msg → Msg) (cs : List Cell) → q ≢ p → find q (update p f cs) ≡ find q cs
unfolding find update
find-update_ne p q f [] h = refl
find-update_ne p q f (c ∷ cs) h = ground (arith, find-update_ne p q f cs h)

pub ptrs-update : (p : ℕ) (f : Msg → Msg) (cs : List Cell) → ptrs (update p f cs) ≡ ptrs cs
unfolding update
ptrs-update p f [] = refl
ptrs-update p f (c ∷ cs) = ground (arith, ptrs-update p f cs)

pub find-Absent : (p : ℕ) (cs : List Cell) → Absent p (ptrs cs) → find p cs ≡ none
unfolding find
find-Absent p [] h = refl
find-Absent p (c ∷ cs) h = ground (arith, find-Absent p cs h.1, h.0)

-- A new cell is found at its address, and hides none of the others.
pub find-append_self :
    (cs : List Cell) (c : Cell) → Absent c.ptr (ptrs cs) → find c.ptr (cs ++ c ∷ []) ≡ some c.msg
unfolding find
find-append_self [] c a = ground arith
find-append_self (d ∷ cs) c a = ground (arith, find-append_self cs c a.1, a.0)

pub find-append_ne :
    (p : ℕ) (cs : List Cell) (c : Cell) → p ≢ c.ptr → find p (cs ++ c ∷ []) ≡ find p cs
unfolding find
find-append_ne p [] c h = ground arith
find-append_ne p (d ∷ cs) c h = ground (arith, find-append_ne p cs c h)

pub Absent-append :
    (p : ℕ) (cs : List Cell) (c : Cell)
    → Absent p (ptrs cs)
    → c.ptr ≢ p
    → Absent p (ptrs (cs ++ c ∷ []))
Absent-append p [] c a h = (h, tt)
Absent-append p (d ∷ cs) c a h = (a.0, Absent-append p cs c a.1 h)

pub Distinct-append :
    (cs : List Cell) (c : Cell)
    → Distinct (ptrs cs)
    → Absent c.ptr (ptrs cs)
    → Distinct (ptrs (cs ++ c ∷ []))
Distinct-append [] c d a = (tt, tt)
Distinct-append (x ∷ cs) c d a =
    (Absent-append x.ptr cs c d.0 (λ e. a.0 (sym e)), Distinct-append cs c d.1 a.1)
