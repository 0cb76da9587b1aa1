-- ===== src/MsgQueue/Flush/Runs.antt =====
-- When FlushMessages runs to its end, and when it walks past the end of the list.
use msg_courier.Prelude.{ℕ, ◌≡◌, ◌≢◌, refl, ◌∙◌, ap, ◌⊎◌, inl, inr, List, [], ◌∷◌, ◌++◌, arith, All}
use msg_courier.Memory.{Outcome, done, fault}
use msg_courier.Msg.{Msg}
use msg_courier.MsgPool.{Pool, flush_free_stack}
use msg_courier.MsgPool.Cells.{Cell}
use msg_courier.MsgQueue.Flush.{
  flush_messages, flush_loop, visit, Visit, keep, reuse, delete, visiting, in_delete, before,
}

-- The message that the visit leaves, if it is not deleted.
unfoldable pub left : Visit → Msg → Msg
left (keep m) _ = m
left (reuse m) _ = m
left delete m = m

unfoldable pub freed : Visit → ℕ → List ℕ → List ℕ
freed (reuse m) p free = p ∷ free
freed _ p free = free

-- Every message by itself, in order.
unfoldable pub each : ℕ → List Cell → List Cell
unfolding left
each now [] = []
each now (c ∷ cs) = record c { msg = left (visit now c.msg) c.msg } ∷ each now cs

unfoldable pub stacked : ℕ → List Cell → List ℕ → List ℕ
unfolding freed
stacked now [] free = free
stacked now (c ∷ cs) free = stacked now cs (freed (visit now c.msg) c.ptr free)

-- Unused for more than a minute.
abbrev pub IsStale : ℕ → Cell → Type 0
IsStale now c = visit now c.msg ≡ delete

before-done :
    (c : Cell) (o : Outcome (List Cell × List ℕ)) (cs : List Cell) (free : List ℕ)
    → o ≡ done (cs, free)
    → before c o ≡ done (c ∷ cs, free)
before-done c o cs free e = ap (before c) e

before-fault : (c : Cell) (o : Outcome (List Cell × List ℕ)) → o ≡ fault → before c o ≡ fault
before-fault c o e = ap (before c) e

module _ (now : ℕ) where
  -- One round over a message that is not stale.
  step_lem :
      (c : Cell) (v : Visit)
      → visit now c.msg ≡ v
      → v ≢ delete
      → (cs : List Cell) (free : List ℕ)
      → flush_loop now visiting (c ∷ cs) free
        ≡ before (record c { msg = left v c.msg }) (flush_loop now visiting cs (freed v c.ptr free))
  unfolding flush_loop left freed
  step_lem c (keep m) e n cs free = rw (e, flush_loop) refl
  step_lem c (reuse m) e n cs free = rw (e, flush_loop) refl
  step_lem c delete e n cs free = ground (arith, n refl)

  flush_loop-each :
      (cs : List Cell) (free : List ℕ)
      → All (λ c. visit now c.msg ≢ delete) cs
      → flush_loop now visiting cs free ≡ done (each now cs, stacked now cs free)
  unfolding each stacked
  flush_loop-each [] free h = unfold flush_loop in refl
  flush_loop-each (c ∷ cs) free h =
      step_lem c (visit now c.msg) refl h.0 cs free
      ∙ before-done _ _ _ _ (flush_loop-each cs (freed (visit now c.msg) c.ptr free) h.1)

  -- Where no message has been unused for more than a minute, FlushMessages returns, and has
  -- visited each message by itself, in order.
  pub flush_messages-each :
      (pool : Pool)
      → All (λ c. visit now c.msg ≢ delete) pool.messages
      → flush_messages now pool
        ≡ done (record { messages = each now pool.messages; free = stacked now pool.messages [] })
  unfolding flush_messages flush_free_stack
  flush_messages-each pool h = rw (flush_loop-each pool.messages [] h) refl

  -- After the messages `cs`, none of which is stale, comes `rest`.
  flush_loop-fault :
      (cs rest : List Cell) (free : List ℕ)
      → All (λ c. visit now c.msg ≢ delete) cs
      → ((f : List ℕ) → flush_loop now visiting rest f ≡ fault)
      → flush_loop now visiting (cs ++ rest) free ≡ fault
  flush_loop-fault [] rest free h f = f free
  flush_loop-fault (c ∷ cs) rest free h f =
      step_lem c (visit now c.msg) refl h.0 (cs ++ rest) free
      ∙ before-fault _ _ (flush_loop-fault cs rest (freed (visit now c.msg) c.ptr free) h.1 f)

  deletes :
      (c : Cell) (tail : List Cell)
      → IsStale now c
      → (free : List ℕ)
      → flush_loop now visiting (c ∷ tail) free ≡ flush_loop now in_delete tail free
  unfolding flush_loop
  deletes c tail s free = rw (s, flush_loop) refl

  end_lem :
      (c : Cell) (tail : List Cell)
      → IsStale now c
      → (tail ≡ []) ⊎ (d : Cell) × (tail ≡ d ∷ [])
      → (free : List ℕ) → flush_loop now visiting (c ∷ tail) free ≡ fault
  unfolding flush_loop
  end_lem c tail s (inl e) free =
      ap (λ t. flush_loop now visiting (c ∷ t) free) e ∙ deletes c [] s free
  end_lem c tail s (inr (d, e)) free =
      ap (λ t. flush_loop now visiting (c ∷ t) free) e ∙ deletes c (d ∷ []) s free

  -- Where the first message that has been unused for more than a minute is the last or the last
  -- but one, FlushMessages walks past the end of the list.
  pub flush_messages-fault :
      (cs : List Cell) (c : Cell) (tail : List Cell) (free : List ℕ)
      → All (λ c. visit now c.msg ≢ delete) cs
      → IsStale now c
      → (tail ≡ []) ⊎ (d : Cell) × (tail ≡ d ∷ [])
      → flush_messages now (record { messages = cs ++ c ∷ tail; free = free }) ≡ fault
  unfolding flush_messages flush_free_stack
  flush_messages-fault cs c tail free h s e =
      rw (flush_loop-fault cs (c ∷ tail) [] h (end_lem c tail s e)) refl
