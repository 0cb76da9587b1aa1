-- ===== src/MsgQueue/Round/Settling.antt =====
-- What the events of a message leave in memory: the message that was taken is as the last of them
-- has it, the notification is written, and all other messages stay.
use msg_courier.Prelude.{
  ℕ, ◌≡◌, ◌≢◌, refl, sym, ◌∙◌, subst, inl, inr, some, List, [], ◌∷◌, All, Bool-cases, ◌==◌, ◌++◌,
  ==_iff, ap, arith,
}
use msg_courier.Msg.{
  Msg, NotifyAction, notify_yes, notify_no, undelivered, delivered, inactive, inuse,
}
use msg_courier.MsgPool.{Pool}
use msg_courier.MsgPool.Cells.{
  Cell, find, update, Absent, Distinct, find-update_self, find-update_ne, ptrs-update,
}
use msg_courier.MsgPool.Invariant.{IsFree, IsFree-update}
use msg_courier.MsgQueue.{Queue}
use msg_courier.MsgQueue.Kept.{IsKept}
use msg_courier.MsgQueue.Kept.Leads.{Has, Has-unique}
use msg_courier.MsgQueue.Route.{Router, Event, posts, hands, sends, leaves}
use msg_courier.MsgQueue.Route.Delivery.{notices, Ends, handed, served, lost, sent, finished}
use msg_courier.MsgQueue.Round.{settle}

Has-update :
    (p : ℕ) (f : Msg → Msg) (cs : List Cell) (ps : List ℕ)
    → Absent p ps
    → All (Has inuse cs) ps
    → All (Has inuse (update p f cs)) ps
Has-update p f cs [] a h = tt
Has-update p f cs (q ∷ qs) a h = (
  record { msg = h.0.msg; at = find-update_ne p q f cs a.0 ∙ h.0.at; is = h.0.is },
  Has-update p f cs qs a.1 h.1,
)

-- A message in use is not free.
pub in_use-Absent :
    (cs : List Cell) (p : ℕ) (free : List ℕ) → Has inuse cs p → All (IsFree cs) free → Absent p free
in_use-Absent cs p [] h k = tt
in_use-Absent cs p (q ∷ qs) h k = (
  λ e. ground (
    arith,
    Has-unique inactive inuse cs q (record { msg = k.0.msg; at = k.0.at; is = k.0.unused })
        (subst (Has inuse cs) (sym e) h),
  ),
  in_use-Absent cs p qs h k.1,
)

-- The messages may change at an address that neither waits nor is free.
pub record Apart (p : ℕ) (q : Queue) : Type 0 where
  pub waits : Absent p q.waiting
  pub unfree : Absent p q.pool.free

abbrev pub stored : Queue → List Cell → Queue
stored q cs = record q { pool = record q.pool { messages = cs } }

update-IsKept :
    (p : ℕ) (f : Msg → Msg) (q : Queue)
    → IsKept q
    → Apart p q
    → IsKept (stored q (update p f q.pool.messages))
update-IsKept p f q k a = record {
  sound = record {
    distinct = subst Distinct (sym (ptrs-update p f q.pool.messages)) k.sound.distinct;
    once = k.sound.once;
    unused = IsFree-update p f q.pool.messages q.pool.free a.unfree k.sound.unused;
  };
  once = k.once;
  in_use = Has-update p f q.pool.messages q.waiting a.waits k.in_use;
}

-- The messages at the addresses are as they were.
abbrev pub AsBefore : Pool → Pool → List ℕ → Type 0
AsBefore pool pool' ps = All (λ p. find p pool'.messages ≡ find p pool.messages) ps

pub AsBefore-apart :
    (pool pool' : Pool) (p s : ℕ) (ps : List ℕ)
    → ((q : ℕ) → q ≢ p → q ≢ s → find q pool'.messages ≡ find q pool.messages)
    → Absent p ps
    → Absent s ps
    → AsBefore pool pool' ps
AsBefore-apart pool pool' p s [] h a b = tt
AsBefore-apart pool pool' p s (q ∷ qs) h a b =
    (h q a.0 b.0, AsBefore-apart pool pool' p s qs h a.1 b.1)

still_there :
    (p s : ℕ) (n : Msg) (cs : List Cell) (m : Msg)
    → find p cs ≡ some m
    → (m' : Msg) × (find p (update s (λ old. n) cs) ≡ some m')
still_there p s n cs m e = elim (Bool-cases (p == s)) [
  | inl same ↦
      let z = (==_iff p s).0 same in
      (
        n,
        subst (λ q. find p (update q (λ old. n) cs) ≡ some n) z
            (find-update_self p (λ old. n) cs m e),
      )
  | inr other ↦ (m, find-update_ne s p (λ old. n) cs (λ z. ground (arith, z, other)) ∙ e)
]

module _ {Handler : Type 0} where
  pub settle-IsKept :
      (p s : ℕ) (es : List (Event Handler)) (q : Queue)
      → IsKept q
      → Apart p q
      → Apart s q
      → IsKept (stored q (settle p s es q.pool.messages))
  unfolding settle
  settle-IsKept p s [] q k a b = k
  settle-IsKept p s (posts n ∷ es) q k a b =
      settle-IsKept p s es (stored q (update s (λ old. n) q.pool.messages))
        (update-IsKept s (λ old. n) q k b) (record { waits = a.waits; unfree = a.unfree })
        (record { waits = b.waits; unfree = b.unfree })
  settle-IsKept p s (hands h m ∷ es) q k a b =
      settle-IsKept p s es (stored q (update p (λ old. m) q.pool.messages))
        (update-IsKept p (λ old. m) q k a) (record { waits = a.waits; unfree = a.unfree })
        (record { waits = b.waits; unfree = b.unfree })
  settle-IsKept p s (sends m ∷ es) q k a b =
      settle-IsKept p s es (stored q (update p (λ old. m) q.pool.messages))
        (update-IsKept p (λ old. m) q k a) (record { waits = a.waits; unfree = a.unfree })
        (record { waits = b.waits; unfree = b.unfree })
  settle-IsKept p s (leaves m ∷ es) q k a b =
      settle-IsKept p s es (stored q (update p (λ old. m) q.pool.messages))
        (update-IsKept p (λ old. m) q k a) (record { waits = a.waits; unfree = a.unfree })
        (record { waits = b.waits; unfree = b.unfree })

  pub settle-others :
      (p s : ℕ) (es : List (Event Handler)) (cs : List Cell) (q : ℕ)
      → q ≢ p
      → q ≢ s
      → find q (settle p s es cs) ≡ find q cs
  unfolding settle
  settle-others p s [] cs q a b = refl
  settle-others p s (posts n ∷ es) cs q a b =
      settle-others p s es (update s (λ old. n) cs) q a b ∙ find-update_ne s q (λ old. n) cs b
  settle-others p s (hands h m ∷ es) cs q a b =
      settle-others p s es (update p (λ old. m) cs) q a b ∙ find-update_ne p q (λ old. m) cs a
  settle-others p s (sends m ∷ es) cs q a b =
      settle-others p s es (update p (λ old. m) cs) q a b ∙ find-update_ne p q (λ old. m) cs a
  settle-others p s (leaves m ∷ es) cs q a b =
      settle-others p s es (update p (λ old. m) cs) q a b ∙ find-update_ne p q (λ old. m) cs a

  -- One message comes last, behind notifications.
  abbrev pub EndsWith : Msg → List (Event Handler) → Type 0
  EndsWith m [] = ⊥
  EndsWith m (posts n ∷ es) = EndsWith m es
  EndsWith m (hands h m' ∷ es) = (es ≡ []) × (m' ≡ m)
  EndsWith m (sends m' ∷ es) = (es ≡ []) × (m' ≡ m)
  EndsWith m (leaves m' ∷ es) = (es ≡ []) × (m' ≡ m)

  last_write :
      (p s : ℕ) (es : List (Event Handler)) (m x y : Msg) (cs : List Cell)
      → find p cs ≡ some x
      → (es ≡ []) × (y ≡ m)
      → find p (settle p s es (update p (λ old. y) cs)) ≡ some m
  unfolding settle
  last_write p s es m x y cs e (none_left, same) =
      ap (λ es. find p (settle p s es (update p (λ old. y) cs))) none_left
      ∙ find-update_self p (λ old. y) cs x e
      ∙ ap some same

  pub settle-EndsWith :
      (p s : ℕ) (es : List (Event Handler)) (m x : Msg) (cs : List Cell)
      → find p cs ≡ some x
      → EndsWith m es
      → find p (settle p s es cs) ≡ some m
  unfolding settle
  settle-EndsWith p s [] m x cs e h = absurd h
  settle-EndsWith p s (posts n ∷ es) m x cs e h =
      let (x', e') = still_there p s n cs x e in
      settle-EndsWith p s es m x' (update s (λ old. n) cs) e' h
  settle-EndsWith p s (hands k y ∷ es) m x cs e h = last_write p s es m x y cs e h
  settle-EndsWith p s (sends y ∷ es) m x cs e h = last_write p s es m x y cs e h
  settle-EndsWith p s (leaves y ∷ es) m x cs e h = last_write p s es m x y cs e h

  notices-EndsWith :
      (r : Router Handler) (m m' : Msg) (a : NotifyAction) (h : Handler)
      → EndsWith m' (notices r a m ++ hands h m' ∷ [])
  unfolding notices
  notices-EndsWith r m m' notify_yes h = (refl, refl)
  notices-EndsWith r m m' notify_no h = (refl, refl)

  pub Ends-EndsWith :
      (r : Router Handler) (m : Msg) (es : List (Event Handler))
      → Ends r m es
      → (m' : Msg) × EndsWith m' es
  Ends-EndsWith r m _ (handed es kind to) = (
    to.message,
    subst (EndsWith to.message) (sym to.all)
        (notices-EndsWith r m to.message m.notify_action to.handler),
  )
  Ends-EndsWith r m _ (served h kind e) = (m, (refl, refl))
  Ends-EndsWith r m _ (lost kind e) = (record m { state = undelivered }, (refl, refl))
  Ends-EndsWith r m _ (sent kind e) = (m, (refl, refl))
  Ends-EndsWith r m _ (finished kind e) = (record m { state = delivered }, (refl, refl))

  -- The message at p has come to its end, for some message for the notification, and is as the
  -- last event has it.
  pub record Ended (r : Router Handler) (pool pool' : Pool) (p : ℕ) : Type 0 where
    pub before : Msg
    pub was : find p pool.messages ≡ some before
    pub spare : Msg
    pub events : List (Event Handler)
    pub ends : Ends (record r { spare = spare }) before events
    pub after : Msg
    pub last : EndsWith after events
    pub is : find p pool'.messages ≡ some after
