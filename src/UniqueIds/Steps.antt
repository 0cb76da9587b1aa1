-- ===== src/UniqueIds/Steps.antt =====
-- The runs of the provider: calls of GetID and rounds of Run, in any order.
use msg_courier.Prelude.{
  ℕ, ◌<◌, ◌≡◌, ◌≢◌, refl, sym, subst, ap₂, List, [], ◌∷◌, map, arith, All, All-map,
}
use msg_courier.MsgPool.Cells.{Absent, Distinct}
use msg_courier.UniqueIds.{
  Text, Provider, new_provider, take_slot, given, get_id, refill, max_unique_ids,
}
use msg_courier.UniqueIds.Slots.{
  All-both, Stored, take_slot-none, take_slot-some, refill_slots-Refilled, create_ids-Refilled,
}

pub data Step : Type 0 where
  gets refills : Step

module _ (create_new_id : ℕ → Text) where
  -- The ids that are handed out, in order, and the provider afterwards.
  unfoldable pub run : List Step → Provider → List Text × Provider
  run [] p = ([], p)
  run (gets ∷ steps) p =
      let (t, p') = get_id create_new_id p in let rest = run steps p' in (t ∷ rest.0, rest.1)
  run (refills ∷ steps) p = run steps (refill create_new_id p)

  -- The texts are the results of calls of CreateNewID, each of another call.
  abbrev pub HandedOnce : List Text → Type 0
  HandedOnce ts = (ks : List ℕ) × (ts ≡ map create_new_id ks) × Distinct ks

  module _ (there : (n : ℕ) → create_new_id n ≢ []) where
    -- What has been handed out is not in the slots.
    record IsFresh (p : Provider) (out : List ℕ) : Type 0 where
      ks : List ℕ
      stored : Stored create_new_id p.slots ks
      once : Distinct ks
      below : All (λ k. k < p.made) ks
      past : All (λ k. k < p.made) out
      apart : All (λ k. Absent k ks) out

    -- A call of GetID hands out the result of one call of CreateNewID, and not one from before.
    record Got (p : Provider) (out : List ℕ) (t : Text) (p' : Provider) : Type 0 where
      number : ℕ
      text : t ≡ create_new_id number
      unused : All (λ k. number ≢ k) out
      fresh : IsFresh p' (number ∷ out)

    refill-IsFresh :
        (p : Provider) (out : List ℕ) → IsFresh p out → IsFresh (refill create_new_id p) out
    unfolding refill
    refill-IsFresh p out f =
        let r =
          refill_slots-Refilled create_new_id there p.made p.slots f.ks f.stored f.once f.below in
        record {
          ks = r.now;
          stored = r.stored;
          once = r.once;
          below = r.below;
          past = All-map _ _ out (λ k h. omega (arith, h, r.more)) f.past;
          apart = All-both _ _ _ out r.keeps f.past f.apart;
        }

    given-Got :
        (p : Provider) (out ks : List ℕ)
        → Stored create_new_id p.slots ks
        → Distinct ks
        → All (λ k. k < p.made) ks
        → All (λ k. k < p.made) out
        → All (λ k. Absent k ks) out
        → Got p out
            (given create_new_id (take_slot p.slots) p).0
            (given create_new_id (take_slot p.slots) p).1
    unfolding given
    given-Got p out [] s d b past a =
        subst (λ o. Got p out (given create_new_id o p).0 (given create_new_id o p).1)
          (sym (take_slot-none create_new_id p.slots s))
          (record {
            number = p.made;
            text = refl;
            unused = All-map _ _ out (λ k h. λ e. omega (arith, e, h)) past;
            fresh = record {
              ks = [];
              stored = s;
              once = tt;
              below = tt;
              past = (omega arith, All-map _ _ out (λ k h. omega (arith, h)) past);
              apart = (tt, a);
            };
          })
    given-Got p out (k ∷ ks) s d b past a =
        let (left, e, s') = take_slot-some create_new_id p.slots k ks s in
        subst (λ o. Got p out (given create_new_id o p).0 (given create_new_id o p).1) (sym e)
          (record {
            number = k;
            text = refl;
            unused = All-map _ _ out (λ j h. h.0) a;
            fresh = record {
              ks = ks;
              stored = s';
              once = d.1;
              below = b.1;
              past = (b.0, past);
              apart = (d.0, All-map _ _ out (λ j h. h.1) a);
            };
          })

    get_id-Got :
        (p : Provider) (out : List ℕ)
        → IsFresh p out
        → Got p out (get_id create_new_id p).0 (get_id create_new_id p).1
    unfolding get_id
    get_id-Got p out f = given-Got p out f.ks f.stored f.once f.below f.past f.apart

    run-IsFresh :
        (steps : List Step) (p : Provider) (out : List ℕ)
        → IsFresh p out
        → (ks : List ℕ) × ((run steps p).0 ≡ map create_new_id ks)
          × Distinct ks
          × All (λ k. Absent k ks) out
    unfolding run
    run-IsFresh [] p out f = ([], refl, tt, All-map _ _ out (λ k h. tt) f.past)
    run-IsFresh (refills ∷ steps) p out f =
        run-IsFresh steps (refill create_new_id p) out (refill-IsFresh p out f)
    run-IsFresh (gets ∷ steps) p out f =
        let g = get_id-Got p out f in
        let (ks, e, d, a) = run-IsFresh steps (get_id create_new_id p).1 (g.number ∷ out) g.fresh in
        (
          g.number ∷ ks,
          ap₂ ◌∷◌ g.text e,
          (a.0, d),
          All-both _ _ _ out (λ k ne h. (ne, h)) g.unused a.1,
        )

    -- Where CreateNewID never makes an empty text, in every run of a new provider, calls of GetID
    -- and rounds of Run in any order, the texts that are handed out are results of CreateNewID,
    -- each of another call.
    pub run-HandedOnce : (steps : List Step) → HandedOnce (run steps (new_provider create_new_id)).0
    unfolding new_provider
    run-HandedOnce steps =
        let (ks, s, d, from, to) = create_ids-Refilled create_new_id there max_unique_ids 0 in
        let (new, e, once, a) = run-IsFresh steps (new_provider create_new_id) [] (record {
          ks = ks;
          stored = s;
          once = d;
          below = All-map _ _ ks (λ k h. omega (arith, h)) to;
          past = tt;
          apart = tt;
        }) in
        (new, e, once)
