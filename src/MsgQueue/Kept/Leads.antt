-- ===== src/MsgQueue/Kept/Leads.antt =====
-- Where a pointer leads, before and after ProcessPendingMessages and FlushMessages.
use msg_courier.Prelude.{
  ℕ, ◌≡◌, ◌≢◌, refl, sym, ◌∙◌, ap, ap₂, subst, true, ◌==◌, ==_iff, Bool-cases, ◌⊎◌, inl, inr, List,
  [], ◌∷◌, Option, none, some, arith, All,
}
use msg_courier.Msg.{
  Msg, State, inactive, pending, inuse, undelivered, delivered, processed, markforreuse,
}
use msg_courier.MsgPool.Cells.{Cell, find, ptrs, Absent, Distinct}
use msg_courier.MsgPool.Invariant.{IsFree}
use msg_courier.MsgQueue.Flush.{visit, flushed_state, is_inactive, is_marked, is_old}
use msg_courier.MsgQueue.Flush.Runs.{each, left}
use msg_courier.MsgQueue.Pending.Queueing.{Passed, AllPassed, queued, all_queued}

-- The pointer leads to a message in that state.
pub record Has (state : State) (cs : List Cell) (p : ℕ) : Type 0 where
  pub msg : Msg
  pub at : find p cs ≡ some msg
  pub is : msg.state ≡ state

-- The cell is found, or the search goes on behind it.
pub Has-here : (s : State) (c : Cell) (cs : List Cell) → c.msg.state ≡ s → Has s (c ∷ cs) c.ptr
unfolding find
Has-here s c cs e = record { msg = c.msg; at = ground arith; is = e }

Has-there :
    (s : State) (c : Cell) (cs : List Cell) (p : ℕ) → c.ptr ≢ p → Has s cs p → Has s (c ∷ cs) p
unfolding find
Has-there s c cs p ne h = record { msg = h.msg; at = ground (arith, ne, h.at); is = h.is }

-- A pointer leads to one message.
pub Has-unique : (s t : State) (cs : List Cell) (p : ℕ) → Has s cs p → Has t cs p → s ≡ t
Has-unique s t cs p h k = sym h.is ∙ ap state_of (sym h.at ∙ k.at) ∙ k.is
  where
    state_of : Option Msg → State
    state_of none = inactive
    state_of (some m) = m.state

pub AllPassed-ptrs : (cs ds : List Cell) → AllPassed cs ds → ptrs ds ≡ ptrs cs
AllPassed-ptrs [] ds h = ap ptrs h
AllPassed-ptrs (c ∷ cs) [] h = absurd h
AllPassed-ptrs (c ∷ cs) (d ∷ ds) h = ap₂ (λ p ps. p ∷ ps) h.0 (AllPassed-ptrs cs ds h.2)

-- Which of the cells it is.
Has-cases :
    (s : State) (c : Cell) (cs : List Cell) (p : ℕ)
    → Has s (c ∷ cs) p
    → ((c.ptr ≡ p) × (c.msg.state ≡ s)) ⊎ ((c.ptr ≢ p) × Has s cs p)
unfolding find
Has-cases s c cs p h = elim (Bool-cases (c.ptr == p)) [
  | inl e ↦ inl ((==_iff c.ptr p).0 e, own e)
  | inr e ↦ inr (
    λ same. ground (arith, e, (==_iff c.ptr p).1 same),
    record { msg = h.msg; at = ground (arith, e, h.at); is = h.is },
  )
]
  where
    own : (c.ptr == p) ≡ true → c.msg.state ≡ s
    own e =
        Has-unique c.msg.state s (c ∷ cs) p
          (record { msg = c.msg; at = ground (arith, e); is = refl }) h

-- A state that a pass leaves alone.
abbrev pub Stays : State → Type 0
Stays s = (t : State) → Passed s t → t ≡ s

pub Has-passed :
    (s : State) (cs ds : List Cell) (p : ℕ) → Stays s → AllPassed cs ds → Has s cs p → Has s ds p
Has-passed s [] ds p stays h k = subst (λ x. Has s x p) (sym h) k
Has-passed s (c ∷ cs) [] p stays h k = absurd h
Has-passed s (c ∷ cs) (d ∷ ds) p stays h k = elim (Has-cases s c cs p k) [
  | inl (here, e) ↦
      subst (Has s (d ∷ ds)) (h.0 ∙ here)
        (Has-here s d ds (stays d.msg.state (subst (λ x. Passed x d.msg.state) e h.1)))
  | inr (ne, k') ↦ Has-there s d ds p (λ e. ne (sym h.0 ∙ e)) (Has-passed s cs ds p stays h.2 k')
]

pub Has-All :
    (s : State) (cs ds : List Cell) (ps : List ℕ)
    → ((p : ℕ) → Has s cs p → Has s ds p)
    → All (Has s cs) ps
    → All (Has s ds) ps
Has-All s cs ds [] f h = tt
Has-All s cs ds (p ∷ ps) f h = (f p h.0, Has-All s cs ds ps f h.1)

-- What waits is in use, so that a pending message does not wait.
pub waiting-Absent :
    (cs : List Cell) (p : ℕ) (ps : List ℕ) → Has pending cs p → All (Has inuse cs) ps → Absent p ps
waiting-Absent cs p [] h k = tt
waiting-Absent cs p (q ∷ qs) h k = (
  λ e. ground (arith, Has-unique inuse pending cs p (subst (Has inuse cs) e k.0) h),
  waiting-Absent cs p qs h k.1,
)

-- The property holds of each pending message.
abbrev pub Pendings : (ℕ → Type 0) → List Cell → Type 0
Pendings P cs = All (λ c. c.msg.state ≡ pending → P c.ptr) cs

pub Pendings-map :
    (P Q : ℕ → Type 0) (cs : List Cell)
    → All (λ c. P c.ptr → Q c.ptr) cs
    → Pendings P cs
    → Pendings Q cs
Pendings-map P Q [] f h = tt
Pendings-map P Q (c ∷ cs) f h = (λ e. f.0 (h.0 e), Pendings-map P Q cs f.1 h.1)

-- The cells behind one have other addresses.
pub others_lem :
    (P Q : ℕ → Type 0) (p : ℕ) (cs : List Cell)
    → Absent p (ptrs cs)
    → ((q : ℕ) → q ≢ p → P q → Q q)
    → All (λ c. P c.ptr → Q c.ptr) cs
others_lem P Q p [] a f = tt
others_lem P Q p (c ∷ cs) a f = (f c.ptr a.0, others_lem P Q p cs a.1 f)

pub pending-Has : (cs : List Cell) → Distinct (ptrs cs) → Pendings (Has pending cs) cs
pending-Has [] d = tt
pending-Has (c ∷ cs) d = (
  λ e. Has-here pending c cs e,
  Pendings-map (Has pending cs) (Has pending (c ∷ cs)) cs
      (others_lem _ _ c.ptr cs d.0 (λ q ne h. Has-there pending c cs q (λ e. ne (sym e)) h))
      (pending-Has cs d.1),
)

-- After the pass the pending messages are in use.
pub passed-Has :
    (cs ds : List Cell) → Distinct (ptrs cs) → AllPassed cs ds → Pendings (Has inuse ds) cs
passed-Has [] ds d h = tt
passed-Has (c ∷ cs) [] d h = absurd h
passed-Has (c ∷ cs) (x ∷ ds) d h = (
  λ e.
      subst (Has inuse (x ∷ ds)) h.0
        (Has-here inuse x ds (subst (λ y. Passed y x.msg.state) e h.1)),
  Pendings-map (Has inuse ds) (Has inuse (x ∷ ds)) cs
      (others_lem _ _ c.ptr cs d.0 (λ q ne k. Has-there inuse x ds q (λ e. ne (sym e ∙ h.0)) k))
      (passed-Has cs ds d.1 h.2),
)

module _ (P : ℕ → Type 0) where
  queued-All :
      (s : State) (p : ℕ) (ps : List ℕ) → (s ≡ pending → P p) → All P ps → All P (queued s p ps)
  unfolding queued
  queued-All pending p ps f h = (f refl, h)
  queued-All inactive p ps f h = h
  queued-All inuse p ps f h = h
  queued-All undelivered p ps f h = h
  queued-All delivered p ps f h = h
  queued-All processed p ps f h = h
  queued-All markforreuse p ps f h = h

  pub all_queued-All :
      (cs : List Cell) (ps : List ℕ) → Pendings P cs → All P ps → All P (all_queued cs ps)
  unfolding all_queued
  all_queued-All [] ps f h = h
  all_queued-All (c ∷ cs) ps f h =
      all_queued-All cs (queued c.msg.state c.ptr ps) f.1 (queued-All c.msg.state c.ptr ps f.0 h)

-- An inactive message stays so in a pass.
pub IsFree-passed :
    (cs ds : List Cell) (ps : List ℕ) → AllPassed cs ds → All (IsFree cs) ps → All (IsFree ds) ps
IsFree-passed cs ds [] h k = tt
IsFree-passed cs ds (p ∷ ps) h k =
    let old : Has inactive cs p = record { msg = k.0.msg; at = k.0.at; is = k.0.unused } in
    let new = Has-passed inactive cs ds p (λ t e. e) h old in
    (record { msg = new.msg; at = new.at; unused = new.is }, IsFree-passed cs ds ps h k.1)

left-inuse : (now : ℕ) (m : Msg) → m.state ≡ inuse → (left (visit now m) m).state ≡ inuse
unfolding left visit flushed_state is_inactive is_marked is_old
left-inuse now m e = ground (arith, e)

-- FlushMessages leaves a message in use where it is.
pub each-Has : (now : ℕ) (cs : List Cell) (p : ℕ) → Has inuse cs p → Has inuse (each now cs) p
unfolding each
each-Has now [] p h = h
each-Has now (c ∷ cs) p h =
    let c' : Cell = record c { msg = left (visit now c.msg) c.msg } in
    elim (Has-cases inuse c cs p h) [
      | inl (here, e) ↦
          subst (Has inuse (c' ∷ each now cs)) here
            (Has-here inuse c' (each now cs) (left-inuse now c.msg e))
      | inr (ne, h') ↦ Has-there inuse c' (each now cs) p ne (each-Has now cs p h')
    ]
