-- ===== src/MsgQueue/Round/Top.antt =====
-- The entry that is taken from the priority queue, and those that stay.
use msg_courier.Prelude.{
  ℕ, ◌≤◌, ◌≢◌, sym, Bool, true, false, Bool-cases, inl, inr, List, [], ◌∷◌, All, ltb, ltb→lt,
  if◌then◌else◌, arith,
}
use mathlib.Core.List.{Perm}
use mathlib.Core.List.Perm
use msg_courier.MsgPool.Cells.{Absent, Distinct}
use msg_courier.MsgQueue.Round.{greater, lesser, take_top}

-- Of two entries one is taken and the other stays.
either :
    (P : ℕ → Type 0) (c : Bool) (b q : ℕ)
    → P b
    → P q
    → P (if c then q else b) × P (if c then b else q)
either P true b q h k = (k, h)
either P false b q h k = (h, k)

apart : (c : Bool) (b q : ℕ) → q ≢ b → (if c then q else b) ≢ (if c then b else q)
apart true b q h = h
apart false b q h = λ e. h (sym e)

module _ (f : ℕ → ℕ) where
  set_apart :
      (c : Bool) (b q : ℕ) (qs : List ℕ)
      → Perm (b ∷ q ∷ qs) ((if c then b else q) ∷ (if c then q else b) ∷ qs)
  set_apart true b q qs = Perm.refl _
  set_apart false b q qs = Perm.swap q b qs

  -- One entry is taken, and all the others stay.
  pub take_top-Perm :
      (b : ℕ) (ps : List ℕ) → Perm (b ∷ ps) ((take_top f b ps).0 ∷ (take_top f b ps).1)
  unfolding take_top
  take_top-Perm b [] = Perm.refl _
  take_top-Perm b (q ∷ qs) =
      let (top, rest) = take_top f (greater f b q) qs in
      Perm.trans (set_apart (ltb (f b) (f q)) b q qs) (
        Perm.trans (Perm.cons (lesser f b q) (take_top-Perm (greater f b q) qs))
          (Perm.swap top (lesser f b q) rest))

  pub All-take_top :
      (P : ℕ → Type 0) (b : ℕ) (ps : List ℕ)
      → P b
      → All P ps
      → P (take_top f b ps).0 × All P (take_top f b ps).1
  unfolding take_top
  All-take_top P b [] p h = (p, tt)
  All-take_top P b (q ∷ qs) p h =
      let e = either P (ltb (f b) (f q)) b q p h.0 in
      let k = All-take_top P (greater f b q) qs e.0 h.1 in (k.0, (e.1, k.1))

  greater_lem : (b q : ℕ) → (f b ≤ f (greater f b q)) × (f (lesser f b q) ≤ f (greater f b q))
  greater_lem b q = elim (Bool-cases (ltb (f b) (f q))) [
    | inl e ↦ let lt = ltb→lt (f b) (f q) e in rw e (omega (arith, lt), omega (arith, lt))
    | inr e ↦ let le : f q ≤ f b = ground (arith, e) in rw e (omega arith, le)
  ]

  -- No entry that stays has a priority above that of the one that is taken.
  pub take_top-IsHighest :
      (b : ℕ) (ps : List ℕ)
      → (f b ≤ f (take_top f b ps).0) × All (λ q. f q ≤ f (take_top f b ps).0) (take_top f b ps).1
  unfolding take_top
  take_top-IsHighest b [] = (omega arith, tt)
  take_top-IsHighest b (q ∷ qs) =
      let k = take_top-IsHighest (greater f b q) qs in
      let g = greater_lem b q in (omega (arith, k.0, g.0), (omega (arith, k.0, g.1), k.1))

Absent-All : (p : ℕ) (qs : List ℕ) → Absent p qs → All (λ q. q ≢ p) qs
Absent-All p [] a = tt
Absent-All p (q ∷ qs) a = (a.0, Absent-All p qs a.1)

All-Absent : (p : ℕ) (qs : List ℕ) → All (λ q. q ≢ p) qs → Absent p qs
All-Absent p [] a = tt
All-Absent p (q ∷ qs) a = (a.0, All-Absent p qs a.1)

pub Distinct-take_top :
    (f : ℕ → ℕ) (b : ℕ) (ps : List ℕ)
    → Distinct (b ∷ ps)
    → Distinct ((take_top f b ps).0 ∷ (take_top f b ps).1)
unfolding take_top
Distinct-take_top f b [] d = (tt, tt)
Distinct-take_top f b (q ∷ qs) d =
    let c = ltb (f b) (f q) in
    let e = either (λ x. Absent x qs) c b q d.0.1 d.1.0 in
    let k = Distinct-take_top f (greater f b q) qs (e.0, d.1.1) in
    let o =
      All-take_top f (λ x. x ≢ lesser f b q) (greater f b q) qs (apart c b q d.0.0)
        (Absent-All (lesser f b q) qs e.1) in
    (((λ s. o.0 (sym s)), k.0), (All-Absent (lesser f b q) _ o.1, k.1))
