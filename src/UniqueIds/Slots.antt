-- ===== src/UniqueIds/Slots.antt =====
-- The slots as the results of calls of CreateNewID, by the numbers of the calls.
use msg_courier.Prelude.{
  ℕ, zero, suc, ◌≤◌, ◌<◌, ◌≡◌, ◌≢◌, refl, ◌+◌, sym, ap, none, some, List, [], ◌∷◌, arith, All,
  All-map,
}
use msg_courier.MsgPool.Cells.{Absent, Distinct}
use msg_courier.UniqueIds.{Text, create_ids, take_slot, refill_slots}

pub Absent-below : (made : ℕ) (ks : List ℕ) → All (λ k. k < made) ks → Absent made ks
Absent-below made [] h = tt
Absent-below made (k ∷ ks) h = ((λ e. omega (arith, e, h.0)), Absent-below made ks h.1)

pub All-both :
    (P Q R : ℕ → Type 0) (xs : List ℕ)
    → ((x : ℕ) → P x → Q x → R x)
    → All P xs
    → All Q xs
    → All R xs
All-both P Q R [] f h k = tt
All-both P Q R (x ∷ xs) f h k = (f x h.0 k.0, All-both P Q R xs f h.1 k.1)

Absent-above : (made : ℕ) (ks : List ℕ) → All (λ k. suc made ≤ k) ks → Absent made ks
Absent-above made [] h = tt
Absent-above made (k ∷ ks) h = ((λ e. omega (arith, e, h.0)), Absent-above made ks h.1)

module _ (create_new_id : ℕ → Text) where
  -- The slots hold the results of the calls with these numbers, next to empty texts.
  unfoldable pub Stored : List Text → List ℕ → Type 0
  Stored [] [] = Unit {0}
  Stored [] (k ∷ ks) = ⊥
  Stored ([] ∷ ss) ks = Stored ss ks
  Stored ((c ∷ cs) ∷ ss) [] = ⊥
  Stored ((c ∷ cs) ∷ ss) (k ∷ ks) = (create_new_id k ≡ c ∷ cs) × Stored ss ks

  -- An id in the slots is the first of the numbers.
  pub take_slot-none : (ss : List Text) → Stored ss [] → take_slot ss ≡ none
  unfolding take_slot Stored
  take_slot-none [] s = refl
  take_slot-none ([] ∷ ss) s = rw (take_slot-none ss s) refl
  take_slot-none ((c ∷ cs) ∷ ss) s = absurd s

  pub take_slot-some :
      (ss : List Text) (k : ℕ) (ks : List ℕ)
      → Stored ss (k ∷ ks)
      → (left : List Text) × (take_slot ss ≡ some (create_new_id k, left)) × Stored left ks
  unfolding take_slot Stored
  take_slot-some [] k ks s = absurd s
  take_slot-some ([] ∷ ss) k ks s =
      let (left, e, s') = take_slot-some ss k ks s in ([] ∷ left, rw e refl, s')
  take_slot-some ((c ∷ cs) ∷ ss) k ks (e, s) = ([] ∷ ss, ap (λ t. some (t, [] ∷ ss)) (sym e), s)

  module _ (there : (n : ℕ) → create_new_id n ≢ []) where
    stored_new :
        (n : ℕ) (ss : List Text) (ks : List ℕ)
        → Stored ss ks
        → Stored (create_new_id n ∷ ss) (n ∷ ks)
    unfolding Stored
    stored_new n ss ks s = go (create_new_id n) refl
      where
        go : (t : Text) → create_new_id n ≡ t → Stored (t ∷ ss) (n ∷ ks)
        go [] e = absurd (there n e)
        go (c ∷ cs) e = (e, s)

    -- What refilling adds are new numbers.
    pub record Refilled (made : ℕ) (ks : List ℕ) (ss : List Text) (made' : ℕ) : Type 0 where
      pub now : List ℕ
      pub stored : Stored ss now
      pub more : made ≤ made'
      pub once : Distinct now
      pub below : All (λ k. k < made') now
      pub keeps : (j : ℕ) → j < made → Absent j ks → Absent j now

    pub refill_slots-Refilled :
        (made : ℕ) (ss : List Text) (ks : List ℕ)
        → Stored ss ks
        → Distinct ks
        → All (λ k. k < made) ks
        → Refilled made ks
            (refill_slots create_new_id made ss).0
            (refill_slots create_new_id made ss).1
    unfolding refill_slots Stored
    refill_slots-Refilled made [] [] s d b = record {
      now = [];
      stored = tt;
      more = omega arith;
      once = tt;
      below = tt;
      keeps = λ j h a. tt;
    }
    refill_slots-Refilled made [] (k ∷ ks) s d b = absurd s
    refill_slots-Refilled made ([] ∷ ss) ks s d b =
        let rest =
          refill_slots-Refilled (suc made) ss ks s d (All-map _ _ ks (λ k h. omega (arith, h)) b) in
        record {
          now = made ∷ rest.now;
          stored = stored_new made _ rest.now rest.stored;
          more = omega (arith, rest.more);
          once = (rest.keeps made (omega arith) (Absent-below made ks b), rest.once);
          below = (omega (arith, rest.more), rest.below);
          keeps = λ j h a. ((λ e. omega (arith, e, h)), rest.keeps j (omega (arith, h)) a);
        }
    refill_slots-Refilled made ((c ∷ cs) ∷ ss) [] s d b = absurd s
    refill_slots-Refilled made ((c ∷ cs) ∷ ss) (k ∷ ks) (e, s) d b =
        let rest = refill_slots-Refilled made ss ks s d.1 b.1 in
        record {
          now = k ∷ rest.now;
          stored = (e, rest.stored);
          more = rest.more;
          once = (rest.keeps k b.0 d.0, rest.once);
          below = (omega (arith, rest.more, b.0), rest.below);
          keeps = λ j h a. (a.0, rest.keeps j h a.1);
        }

    pub create_ids-Refilled :
        (n made : ℕ)
        → (ks : List ℕ) × Stored (create_ids create_new_id n made) ks
          × Distinct ks
          × All (λ k. made ≤ k) ks
          × All (λ k. k < made + n) ks
    unfolding create_ids Stored
    create_ids-Refilled zero made = ([], tt, tt, tt, tt)
    create_ids-Refilled (suc n) made =
        let (ks, s, d, from, to) = create_ids-Refilled n (suc made) in
        (
          made ∷ ks,
          stored_new made _ ks s,
          (Absent-above made ks from, d),
          (omega arith, All-map _ _ ks (λ k h. omega (arith, h)) from),
          (omega arith, All-map _ _ ks (λ k h. omega (arith, h)) to),
        )
