-- ===== src/MsgQueue/Flush/Free.antt =====
-- The free stack that FlushMessages builds anew.
use msg_courier.Prelude.{ℕ, ◌≡◌, ◌≢◌, refl, sym, ap, subst, List, [], ◌∷◌, arith, All}
use msg_courier.Memory.{Returns}
use msg_courier.Msg.{Msg, inactive}
use msg_courier.MsgPool.{Pool}
use msg_courier.MsgPool.Cells.{Cell, ptrs, find, Absent, Distinct}
use msg_courier.MsgPool.Invariant.{IsFree, IsSound}
use msg_courier.MsgQueue.Flush.{flush_messages, visit, Visit, keep, reuse, delete}
use msg_courier.MsgQueue.Flush.Runs.{left, freed, each, stacked, flush_messages-each}

reuse-inactive : (now : ℕ) (m m' : Msg) → visit now m ≡ reuse m' → m'.state ≡ inactive
unfolding visit
reuse-inactive now m m' e = ground (arith, e)

module _ (now : ℕ) where
  ptrs-each : (cs : List Cell) → ptrs (each now cs) ≡ ptrs cs
  unfolding each
  ptrs-each [] = refl
  ptrs-each (c ∷ cs) = ap (λ ps. c.ptr ∷ ps) (ptrs-each cs)

  -- None of the pointers is on the stack.
  abbrev Apart : List ℕ → List ℕ → Type 0
  Apart ps free = All (λ p. Absent p free) ps

  Apart-cons : (p : ℕ) (ps free : List ℕ) → Absent p ps → Apart ps free → Apart ps (p ∷ free)
  Apart-cons p [] free a h = tt
  Apart-cons p (q ∷ qs) free a h = ((λ e. a.0 (sym e), h.0), Apart-cons p qs free a.1 h.1)

  freed-Distinct :
      (v : Visit) (p : ℕ) (ps free : List ℕ)
      → Absent p ps
      → Distinct free
      → Absent p free
      → Apart ps free
      → Distinct (freed v p free) × Apart ps (freed v p free)
  unfolding freed
  freed-Distinct (keep m) p ps free a d n h = (d, h)
  freed-Distinct (reuse m) p ps free a d n h = ((n, d), Apart-cons p ps free a h)
  freed-Distinct delete p ps free a d n h = (d, h)

  stacked-Distinct :
      (cs : List Cell) (free : List ℕ)
      → Distinct (ptrs cs)
      → Distinct free
      → Apart (ptrs cs) free
      → Distinct (stacked now cs free)
  unfolding stacked
  stacked-Distinct [] free d e a = e
  stacked-Distinct (c ∷ cs) free d e a =
      let next = freed-Distinct (visit now c.msg) c.ptr (ptrs cs) free d.0 e a.0 a.1 in
      stacked-Distinct cs _ d.1 next.0 next.1

  -- The property holds for each pointer that goes on the stack.
  abbrev Stacks : (ℕ → Type 0) → List Cell → Type 0
  Stacks P cs = All (λ c. (m : Msg) → visit now c.msg ≡ reuse m → P c.ptr) cs

  stacked-All :
      (P : ℕ → Type 0) (cs : List Cell) (free : List ℕ)
      → Stacks P cs
      → All P free
      → All P (stacked now cs free)
  unfolding stacked freed
  stacked-All P [] free s h = h
  stacked-All P (c ∷ cs) free s h = stacked-All P cs _ s.1 (go (visit now c.msg) refl)
    where
      go : (v : Visit) → visit now c.msg ≡ v → All P (freed v c.ptr free)
      go (keep m) e = h
      go (reuse m) e = (s.0 m e, h)
      go delete e = h

  -- A cell further on is found if its pointer is not that of the first.
  IsFree-cons : (d : Cell) (cs : List Cell) (p : ℕ) → d.ptr ≢ p → IsFree cs p → IsFree (d ∷ cs) p
  unfolding find
  IsFree-cons d cs p ne f = record { msg = f.msg; at = ground (arith, ne, f.at); unused = f.unused }

  Stacks-cons :
      (d : Cell) (ds cs : List Cell)
      → Absent d.ptr (ptrs cs)
      → Stacks (IsFree ds) cs
      → Stacks (IsFree (d ∷ ds)) cs
  Stacks-cons d ds [] a s = tt
  Stacks-cons d ds (c ∷ cs) a s =
      (λ m e. IsFree-cons d ds c.ptr ((λ h. a.0 (sym h))) (s.0 m e), Stacks-cons d ds cs a.1 s.1)

  Stacks-each : (cs : List Cell) → Distinct (ptrs cs) → Stacks (IsFree (each now cs)) cs
  unfolding each find left
  Stacks-each [] d = tt
  Stacks-each (c ∷ cs) d = (
    λ m e. record { msg = m; at = ground (arith, e); unused = reuse-inactive now c.msg m e },
    Stacks-cons (record c { msg = left (visit now c.msg) c.msg }) (each now cs) cs d.0
        (Stacks-each cs d.1),
  )

  -- Where the messages are at different addresses and none has been unused for more than a minute,
  -- FlushMessages returns a sound pool, whatever was on the free stack before.
  pub flush_messages-IsSound :
      (pool : Pool)
      → Distinct (ptrs pool.messages)
      → All (λ c. visit now c.msg ≢ delete) pool.messages
      → Returns IsSound (flush_messages now pool)
  flush_messages-IsSound pool d h = rw (flush_messages-each now pool h) (record {
    distinct = subst Distinct (sym (ptrs-each pool.messages)) d;
    once = stacked-Distinct pool.messages [] d tt (all_apart (ptrs pool.messages));
    unused =
        stacked-All (IsFree (each now pool.messages)) pool.messages [] (Stacks-each pool.messages d)
          tt;
  })
    where
      all_apart : (ps : List ℕ) → Apart ps []
      all_apart [] = tt
      all_apart (p ∷ ps) = (tt, all_apart ps)
