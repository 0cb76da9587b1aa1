-- ===== src/UniqueIds.antt =====
-- uniqueidprovider.h and uniqueidprovider.cpp: cUniqueIDProvider, the ids made in advance. An id is a
-- text, by its bytes; CreateNewID is a parameter, from the number of the call to its result, which
-- the system makes. Run refills the vector, once for each round.
pub mod Slots
pub mod Steps
use msg_courier.Prelude.{ℕ, zero, suc, Option, none, some, List, [], ◌∷◌}

abbrev pub Text : Type 0
Text = List ℕ

-- m_vector, and the calls of CreateNewID so far
pub record Provider : Type 0 where
  pub slots : List Text
  pub made : ℕ

-- MAX_UNIQUE_IDS
abbrev pub max_unique_ids : ℕ
max_unique_ids = 256

-- The first id that is there, and the slots with an empty text in its place.
unfoldable pub take_slot : List Text → Option (Text × List Text)
take_slot [] = none
take_slot ([] ∷ ss) = elim (take_slot ss) [ none ↦ none | some (t, left) ↦ some (t, [] ∷ left) ]
take_slot ((c ∷ cs) ∷ ss) = some (c ∷ cs, [] ∷ ss)

module _ (create_new_id : ℕ → Text) where
  unfoldable pub create_ids : (rounds made : ℕ) → List Text
  create_ids zero made = []
  create_ids (suc n) made = create_new_id made ∷ create_ids n (suc made)

  unfoldable pub new_provider : Provider
  unfolding create_ids
  new_provider = record { slots = create_ids max_unique_ids 0; made = max_unique_ids }

  unfoldable pub given : Option (Text × List Text) → Provider → Text × Provider
  given none p = (create_new_id p.made, record p { made = suc p.made })
  given (some (t, ss)) p = (t, record p { slots = ss })

  unfoldable pub get_id : Provider → Text × Provider
  unfolding take_slot given
  get_id p = given (take_slot p.slots) p

  -- One round of Run.
  unfoldable pub refill_slots : ℕ → List Text → List Text × ℕ
  refill_slots made [] = ([], made)
  refill_slots made ([] ∷ ss) =
      let rest = refill_slots (suc made) ss in (create_new_id made ∷ rest.0, rest.1)
  refill_slots made ((c ∷ cs) ∷ ss) = let rest = refill_slots made ss in ((c ∷ cs) ∷ rest.0, rest.1)

  unfoldable pub refill : Provider → Provider
  unfolding refill_slots
  refill p = let (ss, made) = refill_slots p.made p.slots in record { slots = ss; made = made }
