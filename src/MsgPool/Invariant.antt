-- ===== src/MsgPool/Invariant.antt =====
-- What GetMessage and ReturnToPool keep: the free stack names messages that nobody uses, once each.
use Prim.Native.String.{String}
use msg_courier.Prelude.{
  ℕ, ◌≡◌, ◌≢◌, refl, sym, ◌∙◌, subst, ◌⊎◌, inl, inr, List, [], ◌∷◌, ◌++◌, none, some, arith, All,
}
use msg_courier.Memory.{Returns}
use msg_courier.Msg.{Msg, inactive, inuse, reset_msg}
use msg_courier.Msg.Setters.{set_msg_state}
use msg_courier.MsgPool.{Pool, hand_out, pick, get_reusable_message, return_to_pool}
use msg_courier.MsgPool.Cells.{
  Cell, find, update, ptrs, Absent, Distinct, find-update_self, find-update_ne, ptrs-update,
  find-Absent, find-append_self, find-append_ne, Distinct-append,
}

-- The pointer leads to a message that is not in use.
pub record IsFree (cs : List Cell) (p : ℕ) : Type 0 where
  pub msg : Msg
  pub at : find p cs ≡ some msg
  pub unused : msg.state ≡ inactive

pub record IsSound (pool : Pool) : Type 0 where
  pub distinct : Distinct (ptrs pool.messages)
  pub once : Distinct pool.free
  pub unused : All (IsFree pool.messages) pool.free

-- Messages off the stack may change.
pub IsFree-update :
    (p : ℕ) (f : Msg → Msg) (cs : List Cell) (free : List ℕ)
    → Absent p free
    → All (IsFree cs) free
    → All (IsFree (update p f cs)) free
IsFree-update p f cs [] a h = tt
IsFree-update p f cs (q ∷ qs) a h = (
  record { msg = h.0.msg; at = find-update_ne p q f cs a.0 ∙ h.0.at; unused = h.0.unused },
  IsFree-update p f cs qs a.1 h.1,
)

-- Nobody else sees the message that is handed out.
pub record HandedOut (pool : Pool) (p : ℕ) (pool' : Pool) : Type 0 where
  pub sound : IsSound pool'
  pub msg : Msg
  pub at : find p pool'.messages ≡ some msg
  pub taken : msg.state ≡ inuse
  pub off_stack : Absent p pool'.free
  pub was_unused : (find p pool.messages ≡ none) ⊎ IsFree pool.messages p
  pub others : (q : ℕ) → q ≢ p → find q pool'.messages ≡ find q pool.messages

module _ (id : String) (now : ℕ) where
  abbrev renewed : Msg → Msg
  renewed old = set_msg_state inuse (reset_msg id now old)

  renewed_inuse : (m : Msg) → (renewed m).state ≡ inuse
  renewed_inuse m = refl

  -- The message behind a pointer that is off the stack is renewed, and no other.
  hand_out-HandedOut :
      (p : ℕ) (m : Msg) (pool : Pool)
      → find p pool.messages ≡ some m
      → IsSound pool
      → Absent p pool.free
      → (before : Pool) → (find p before.messages ≡ none) ⊎ IsFree before.messages p
      → ((q : ℕ) → q ≢ p → find q pool.messages ≡ find q before.messages)
      → Returns (λ r. HandedOut before r.0 r.1) (hand_out id now p pool)
  unfolding hand_out
  hand_out-HandedOut p m pool e s a before was others =
      rw (e, hand_out)
        (record {
          sound = record {
            distinct = subst Distinct (sym (ptrs-update p renewed pool.messages)) s.distinct;
            once = s.once;
            unused = IsFree-update p renewed pool.messages pool.free a s.unused;
          };
          msg = renewed m;
          at = find-update_self p renewed pool.messages m e;
          taken = renewed_inuse m;
          off_stack = a;
          was_unused = was;
          others = λ q ne. find-update_ne p q renewed pool.messages ne ∙ others q ne;
        })

  IsFree-append :
      (cs : List Cell) (c : Cell) (free : List ℕ)
      → Absent c.ptr (ptrs cs)
      → All (IsFree cs) free
      → All (IsFree (cs ++ c ∷ [])) free
  IsFree-append cs c [] a h = tt
  IsFree-append cs c (p ∷ ps) a h = (
    record {
      msg = h.0.msg;
      at =
          find-append_ne p cs c (λ e.
            ground (arith, find-Absent p cs (subst (λ q. Absent q (ptrs cs)) (sym e) a), h.0.at))
          ∙ h.0.at;
      unused = h.0.unused;
    },
    IsFree-append cs c ps a h.1,
  )

  pick-HandedOut :
      (made : Cell) (pool : Pool) (free : List ℕ)
      → pool.free ≡ free
      → IsSound pool
      → Absent made.ptr (ptrs pool.messages)
      → Returns (λ r. HandedOut pool r.0 r.1) (pick made id now pool free)
  unfolding pick
  pick-HandedOut made pool [] e s a =
      hand_out-HandedOut made.ptr made.msg (record pool { messages = pool.messages ++ made ∷ [] })
        (find-append_self pool.messages made a)
        (record {
          distinct = Distinct-append pool.messages made s.distinct a;
          once = s.once;
          unused = IsFree-append pool.messages made pool.free a s.unused;
        })
        (subst (Absent made.ptr) (sym e) tt) pool (inl (find-Absent made.ptr pool.messages a))
        (λ q ne. find-append_ne q pool.messages made ne)
  pick-HandedOut made pool (p ∷ rest) e s a =
      let once = subst Distinct e s.once in
      let unused = subst (All (IsFree pool.messages)) e s.unused in
      hand_out-HandedOut p unused.0.msg (record pool { free = rest }) unused.0.at
        (record { distinct = s.distinct; once = once.1; unused = unused.1 }) once.0 pool
        (inr unused.0) (λ q ne. refl)

  -- From a sound pool, with a new message at an address of its own at hand, GetMessage returns:
  -- the message is in use and off the free stack, it was new or unused before, the pool stays
  -- sound and every other message stays as it was.
  pub get_reusable_message-HandedOut :
      (made : Cell) (pool : Pool)
      → IsSound pool
      → Absent made.ptr (ptrs pool.messages)
      → Returns (λ r. HandedOut pool r.0 r.1) (get_reusable_message made id now pool)
  unfolding get_reusable_message
  get_reusable_message-HandedOut made pool s a = pick-HandedOut made pool pool.free refl s a

-- A message of a sound pool that is not on the free stack may be returned: the pool is sound
-- again.
pub return_to_pool-IsSound :
    (p : ℕ) (m : Msg) (pool : Pool)
    → IsSound pool
    → find p pool.messages ≡ some m
    → Absent p pool.free
    → IsSound (return_to_pool p pool)
unfolding return_to_pool
return_to_pool-IsSound p m pool s e a = record {
  distinct = subst Distinct (sym (ptrs-update p _ pool.messages)) s.distinct;
  once = (a, s.once);
  unused = (
    record {
      msg = set_msg_state inactive m;
      at = find-update_self p (set_msg_state inactive) pool.messages m e;
      unused = refl;
    },
    IsFree-update p (set_msg_state inactive) pool.messages pool.free a s.unused,
  );
}
