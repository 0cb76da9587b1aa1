-- ===== src/MsgQueue/Kept.antt =====
-- The queue of msgqueue.cpp between its calls: what waits to be processed and what may be handed
-- out are different messages.
pub mod Leads
use Prim.Native.String.{String}
use msg_courier.Prelude.{
  ℕ, ◌≡◌, ◌≢◌, refl, sym, ◌∙◌, ◌⊎◌, inl, inr, none, some, ap, subst, List, [], ◌∷◌, arith, All,
}
use msg_courier.Memory.{Outcome, done, Returns, Returns-map}
use msg_courier.Msg.{
  Msg, State, inactive, pending, inuse, undelivered, delivered, processed, markforreuse,
}
use msg_courier.MsgPool.{Pool, get_reusable_message}
use msg_courier.MsgPool.Cells.{Cell, find, ptrs, Absent, Distinct}
use msg_courier.MsgPool.Invariant.{IsFree, IsSound, HandedOut, get_reusable_message-HandedOut}
use msg_courier.MsgQueue.{Queue}
use msg_courier.MsgQueue.Flush.{flush_messages, visit, delete}
use msg_courier.MsgQueue.Flush.Runs.{each, stacked, flush_messages-each}
use msg_courier.MsgQueue.Flush.Free.{flush_messages-IsSound}
use msg_courier.MsgQueue.Pending.{process_pending_messages}
use msg_courier.MsgQueue.Pending.Queueing.{
  IsRoutable, Passed, AllPassed, queued, all_queued, process_pending_messages_lem,
}
use msg_courier.MsgQueue.Kept.Leads.{
  Has, Has-unique, Has-passed, Has-All, waiting-Absent, Pendings, Pendings-map, others_lem,
  pending-Has, passed-Has, AllPassed-ptrs, all_queued-All, IsFree-passed, each-Has,
}

-- The pool is sound, and what waits on the priority queue is in use and waits once.
pub record IsKept (q : Queue) : Type 0 where
  pub sound : IsSound q.pool
  pub once : Distinct q.waiting
  pub in_use : All (Has inuse q.pool.messages) q.waiting

-- None of the pending messages waits.
abbrev Fresh : List Cell → List ℕ → Type 0
Fresh cs ps = Pendings (λ p. Absent p ps) cs

queued-Distinct :
    (s : State) (p : ℕ) (cs : List Cell) (ps : List ℕ)
    → Absent p (ptrs cs)
    → (s ≡ pending → Absent p ps)
    → Distinct ps
    → Fresh cs ps
    → Distinct (queued s p ps) × Fresh cs (queued s p ps)
unfolding queued
queued-Distinct pending p cs ps a f d h = (
  (f refl, d),
  Pendings-map (λ q. Absent q ps) (λ q. Absent q (p ∷ ps)) cs
      (others_lem _ _ p cs a (λ q ne k. (λ e. ne (sym e), k))) h,
)
queued-Distinct inactive p cs ps a f d h = (d, h)
queued-Distinct inuse p cs ps a f d h = (d, h)
queued-Distinct undelivered p cs ps a f d h = (d, h)
queued-Distinct delivered p cs ps a f d h = (d, h)
queued-Distinct processed p cs ps a f d h = (d, h)
queued-Distinct markforreuse p cs ps a f d h = (d, h)

all_queued-Distinct :
    (cs : List Cell) (ps : List ℕ)
    → Distinct (ptrs cs)
    → Distinct ps
    → Fresh cs ps
    → Distinct (all_queued cs ps)
unfolding all_queued
all_queued-Distinct [] ps d e h = e
all_queued-Distinct (c ∷ cs) ps d e h =
    let next = queued-Distinct c.msg.state c.ptr cs ps d.0 h.0 e h.1 in
    all_queued-Distinct cs (queued c.msg.state c.ptr ps) d.1 next.0 next.1

waiting-Fresh :
    (whole cs : List Cell) (ps : List ℕ)
    → Pendings (Has pending whole) cs
    → All (Has inuse whole) ps
    → Fresh cs ps
waiting-Fresh whole [] ps f h = tt
waiting-Fresh whole (c ∷ cs) ps f h =
    (λ e. waiting-Absent whole c.ptr ps (f.0 e) h, waiting-Fresh whole cs ps f.1 h)

-- Where every pending message has a connection type, ProcessPendingMessages returns from a kept
-- queue, and leaves one: the pool is sound, and what waits on the priority queue is in use and
-- waits once.
pub process_pending_messages-IsKept :
    (now : ℕ) (q : Queue)
    → IsKept q
    → All (λ c. IsRoutable c.msg) q.pool.messages
    → Returns IsKept (process_pending_messages now q)
process_pending_messages-IsKept now q k h =
    Returns-map _ IsKept (process_pending_messages now q) (process_pending_messages_lem now q h)
      (λ r after. record {
        sound = record {
          distinct =
              subst Distinct (sym (AllPassed-ptrs cs r.pool.messages after.0)) k.sound.distinct;
          once = subst Distinct (sym after.2) k.sound.once;
          unused =
              subst (All (IsFree r.pool.messages)) (sym after.2)
                (IsFree-passed cs r.pool.messages q.pool.free after.0 k.sound.unused);
        };
        once = subst Distinct (sym after.1) (
            all_queued-Distinct cs q.waiting k.sound.distinct k.once
              (waiting-Fresh cs cs q.waiting (pending-Has cs k.sound.distinct) k.in_use));
        in_use = subst (All (Has inuse r.pool.messages)) (sym after.1) (
            all_queued-All (Has inuse r.pool.messages) cs q.waiting
              (passed-Has cs r.pool.messages k.sound.distinct after.0)
              (Has-All inuse cs r.pool.messages q.waiting
                (λ p. Has-passed inuse cs r.pool.messages p (λ t e. e) after.0) k.in_use));
      })
  where
    cs : List Cell
    cs = q.pool.messages

-- Where no message has been unused for more than a minute, FlushMessages returns on a kept queue,
-- and leaves it kept: nothing that waits is put on the free stack.
pub flush_messages-IsKept :
    (now : ℕ) (q : Queue)
    → IsKept q
    → All (λ c. visit now c.msg ≢ delete) q.pool.messages
    → Returns (λ pool. IsKept (record q { pool = pool })) (flush_messages now q.pool)
flush_messages-IsKept now q k h =
    let sound = flush_messages-IsSound now q.pool k.sound.distinct h in
    let ran = flush_messages-each now q.pool h in
    subst (Returns (λ pool. IsKept (record q { pool = pool }))) (sym ran) (record {
      sound = subst (Returns IsSound) ran sound;
      once = k.once;
      in_use =
          Has-All inuse q.pool.messages (each now q.pool.messages) q.waiting
            (each-Has now q.pool.messages) k.in_use;
    })

-- What waits is not what is handed out.
unused-Absent :
    (cs : List Cell) (p : ℕ) (ps : List ℕ)
    → (find p cs ≡ none) ⊎ IsFree cs p
    → All (Has inuse cs) ps
    → Absent p ps
unused-Absent cs p [] was h = tt
unused-Absent cs p (q ∷ qs) was h =
    (λ e. nobody was (subst (Has inuse cs) e h.0), unused-Absent cs p qs was h.1)
  where
    nobody : (find p cs ≡ none) ⊎ IsFree cs p → Has inuse cs p → ⊥
    nobody (inl nowhere) k = ground (arith, nowhere, k.at)
    nobody (inr free) k = ground (
      arith,
      Has-unique inactive inuse cs p (record { msg = free.msg; at = free.at; is = free.unused }) k,
    )

others-Has :
    (cs ds : List Cell) (p : ℕ) (ps : List ℕ)
    → Absent p ps
    → ((q : ℕ) → q ≢ p → find q ds ≡ find q cs)
    → All (Has inuse cs) ps
    → All (Has inuse ds) ps
others-Has cs ds p [] a others h = tt
others-Has cs ds p (q ∷ qs) a others h = (
  record { msg = h.0.msg; at = others q a.0 ∙ h.0.at; is = h.0.is },
  others-Has cs ds p qs a.1 others h.1,
)

-- With a new message at an address of its own at hand, GetMessage returns on a kept queue, leaves
-- it kept, and hands out a message that does not wait on the priority queue.
pub get_reusable_message-IsKept :
    (made : Cell) (id : String) (now : ℕ) (q : Queue)
    → IsKept q
    → Absent made.ptr (ptrs q.pool.messages)
    → Returns
        (λ r. IsKept (record q { pool = r.1 }) × Absent r.0 q.waiting)
        (get_reusable_message made id now q.pool)
get_reusable_message-IsKept made id now q k a =
    Returns-map _ _ (get_reusable_message made id now q.pool)
      (get_reusable_message-HandedOut id now made q.pool k.sound a)
      (λ r h.
        let apart = unused-Absent q.pool.messages r.0 q.waiting h.was_unused k.in_use in
        (
          record {
            sound = h.sound;
            once = k.once;
            in_use = others-Has q.pool.messages r.1.messages r.0 q.waiting apart h.others k.in_use;
          },
          apart,
        ))
