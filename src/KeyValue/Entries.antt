-- ===== src/KeyValue/Entries.antt =====
-- The contents of a map of buffers, and what Set and Get do to them.
use msg_courier.Prelude.{
  ℕ, ◌≡◌, refl, ap₂, ◌∙◌, subst, inl, inr, Bool, true, false, Ordering-cases, Option, none, some,
  List, [], ◌∷◌, All, if◌then◌else◌,
}
use msg_courier.Memory.{Malloc, Allocates, Returns, Returns-bind}
use msg_courier.Buffer.{Buffer, count, bytes, reset, replace_with, make_string}
use msg_courier.Buffer.Append.{Holds, content-zero}
use msg_courier.Buffer.Copy.{copy-Holds, make_string-keeps}
use msg_courier.Buffer.Valid.{IsValid, new-IsValid, reset-IsValid}
use msg_courier.Buffer.Search.Exact.{c_str}
use msg_courier.Dict.{Dict, order, is_eq, lookup, insert}
use msg_courier.KeyValue.{owned, set, get, get_by}

abbrev pub contents : Dict Buffer → Dict (List ℕ)
contents [] = []
contents (e ∷ m) = (e.0, bytes e.1) ∷ contents m

-- A map of sound buffers with the entries.
pub record Keeps (es : Dict (List ℕ)) (m : Dict Buffer) : Type 0 where
  pub same : contents m ≡ es
  pub valid : All (λ e. IsValid e.1) m

contents-insert :
    (k : List ℕ) (b : Buffer) (m : Dict Buffer)
    → contents (insert k b m) ≡ insert k (bytes b) (contents m)
unfolding insert
contents-insert k b [] = refl
contents-insert k b (e ∷ m) = elim (Ordering-cases (order k e.0)) [
  | inl o ↦ rw o refl
  | inr (inl o) ↦ rw o refl
  | inr (inr o) ↦ rw (o, contents-insert k b m) refl
]

IsValid-insert :
    (k : List ℕ) (b : Buffer) (m : Dict Buffer)
    → IsValid b
    → All (λ e. IsValid e.1) m
    → All (λ e. IsValid e.1) (insert k b m)
unfolding insert
IsValid-insert k b [] v h = (v, tt)
IsValid-insert k b (e ∷ m) v h = elim (Ordering-cases (order k e.0)) [
  | inl o ↦ rw o (v, h)
  | inr (inl o) ↦ rw o (v, h.1)
  | inr (inr o) ↦ rw o (h.0, IsValid-insert k b m v h.1)
]

abbrev Found : Option Buffer → Option (List ℕ) → Type 0
Found none none = Unit
Found none (some v) = ⊥
Found (some b) none = ⊥
Found (some b) (some v) = Holds b v

if_Found :
    (t : Bool) (b : Buffer) (v : List ℕ) (o : Option Buffer) (p : Option (List ℕ))
    → Holds b v
    → Found o p
    → Found (if t then some b else o) (if t then some v else p)
if_Found true b v o p h k = h
if_Found false b v o p h k = k

lookup-Found :
    (k : List ℕ) (m : Dict Buffer)
    → All (λ e. IsValid e.1) m
    → Found (lookup k m) (lookup k (contents m))
unfolding lookup
lookup-Found k [] h = tt
lookup-Found k (e ∷ m) h =
    if_Found (is_eq (order k e.0)) e.1 (bytes e.1) (lookup k m) (lookup k (contents m))
      (record { valid = h.0; stands_for = refl }) (lookup-Found k m h.1)

owned-IsValid : (o : Option Buffer) (p : Option (List ℕ)) → Found o p → IsValid (owned o)
owned-IsValid none p h = new-IsValid
owned-IsValid (some b) none h = absurd h
owned-IsValid (some b) (some v) h = h.valid

abbrev pub or_empty : Option (List ℕ) → List ℕ
or_empty none = []
or_empty (some v) = v

module _ (malloc : Malloc) (works : Allocates malloc) (es : Dict (List ℕ)) (m : Dict Buffer)
    (kept : Keeps es m) where
  -- Set from a buffer puts its contents under the key, up to the first NUL of the key.
  pub set-Keeps :
      (key : List ℕ) (b : Buffer) (v : List ℕ)
      → Holds b v
      → Returns (Keeps (insert (c_str key) v es)) (set malloc key b.block b.tail m)
  unfolding set
  set-Keeps key b v h =
      let k = c_str key in
      Returns-bind (λ r. Holds r.1 v) _
        (replace_with malloc b.block (count b.tail) (owned (lookup k m))) _
        (copy-Holds malloc works b v h (owned (lookup k m))
          (owned-IsValid (lookup k m) (lookup k (contents m)) (lookup-Found k m kept.valid)))
        (λ r r_holds. record {
          same = contents-insert k r.1 m ∙ ap₂ (λ ys d. insert k ys d) r_holds.stands_for kept.same;
          valid = IsValid-insert k r.1 m r_holds.valid kept.valid;
        })

  get_by-Holds :
      (o : Option Buffer) (p : Option (List ℕ)) (into : Buffer)
      → Found o p
      → IsValid into
      → Returns (λ b. Holds b (or_empty p)) (get_by malloc o into)
  unfolding get_by reset
  get_by-Holds none none into f v = record {
    valid = unfold reset in reset-IsValid into v;
    stands_for = content-zero into.block;
  }
  get_by-Holds none (some x) into f v = absurd f
  get_by-Holds (some b) none into f v = absurd f
  get_by-Holds (some b) (some x) into f v =
      Returns-bind (λ b'. Holds b' x) _ (make_string b) _ (make_string-keeps b x f)
        (λ b' h.
          Returns-bind (λ r. Holds r.1 x) _ (replace_with malloc b'.block (count b'.tail) into) _
            (copy-Holds malloc works b' x h into v) (λ r k. k))

  -- Get leaves in the buffer what the map has under the key, and nothing if it has no such key.
  pub get-Holds :
      (key : List ℕ) (into : Buffer)
      → IsValid into
      → Returns (λ b. Holds b (or_empty (lookup (c_str key) es))) (get malloc key m into)
  unfolding get
  get-Holds key into v =
      subst (λ d. Returns (λ b. Holds b (or_empty (lookup (c_str key) d))) (get malloc key m into))
        kept.same
        (get_by-Holds (lookup (c_str key) m) (lookup (c_str key) (contents m)) into
          (lookup-Found (c_str key) m kept.valid) v)
