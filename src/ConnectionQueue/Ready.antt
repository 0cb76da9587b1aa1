-- ===== src/ConnectionQueue/Ready.antt =====
-- The connections that wait, and how they come into the cache.
use msg_courier.Prelude.{
  ℕ, zero, suc, Bool, filter, ltb, ◌+◌, ◌≤◌, ◌<◌, ◌≡◌, ◌≢◌, refl, sym, ap, ◌∙◌, subst, true, some,
  List, [], ◌∷◌, ◌++◌, map, append-nil, append_assoc, arith, leb, length, take, get_elem?,
  length-take, length-append, take-append_le, inl, inr, Bool-cases, All,
}
use msg_courier.Memory.{done, ◌>>=◌, Malloc, Allocates, Returns, Returns-bind, Returns-map}
use msg_courier.Memory.Vector.{store, at-done}
use msg_courier.MsgPool.Cells.{Absent}
use msg_courier.ConnectionCache.Walk.{set_active_connections}
use msg_courier.ConnectionCache.Passes.{Passed, set_active_connections-Passed}
use msg_courier.ConnectionCache.{finish, Node, Cache, in_bounds, add_connection}
use msg_courier.ConnectionCache.Nodes.{socks}
use msg_courier.ConnectionCache.Sound.{IsSound}
use msg_courier.ConnectionCache.Adding.{Added, add_connection-Added}
use msg_courier.ConnectionQueue.Round.{
  Waiting, ConnQueue, queue_connection, accept_loop, accept_waiting, fd_setsize, fd_set_all,
  prepare_connections,
}

-- The slots from an index on.
abbrev pub Slots : List Waiting → ℕ → List Waiting → Type 0
Slots slots i [] = Unit {0}
Slots slots i (w ∷ ws) = (get_elem? slots i ≡ some w) × Slots slots (suc i) ws

-- Sockets within bounds, different from each other and from those in use.
abbrev pub AreNew : List ℕ → List Waiting → Type 0
AreNew ss [] = Unit {0}
AreNew ss (w ∷ ws) = (in_bounds w.sock ≡ true) × Absent w.sock ss × AreNew (ss ++ w.sock ∷ []) ws

Absent-join : (s : ℕ) (ss : List ℕ) (x : ℕ) → Absent s ss → x ≢ s → Absent s (ss ++ x ∷ [])
Absent-join s [] x a ne = (ne, tt)
Absent-join s (y ∷ ys) x a ne = (a.0, Absent-join s ys x a.1 ne)

Absent-split : (s : ℕ) (ss : List ℕ) (x : ℕ) → Absent s (ss ++ x ∷ []) → Absent s ss × (x ≢ s)
Absent-split s [] x a = (tt, a.0)
Absent-split s (y ∷ ys) x a = let (b, ne) = Absent-split s ys x a.1 in ((a.0, b), ne)

Absent-weaken :
    (ss ts : List ℕ) (x : ℕ)
    → ((s : ℕ) → Absent s ss → Absent s ts)
    → (s : ℕ) → Absent s (ss ++ x ∷ [])
    → Absent s (ts ++ x ∷ [])
Absent-weaken ss ts x h s a = let (b, ne) = Absent-split s ss x a in Absent-join s ts x (h s b) ne

pub AreNew-weaken :
    (ss ts : List ℕ) (ws : List Waiting)
    → ((s : ℕ) → Absent s ss → Absent s ts)
    → AreNew ss ws
    → AreNew ts ws
AreNew-weaken ss ts [] h k = tt
AreNew-weaken ss ts (w ∷ ws) h (range, new, rest) =
    (range, h w.sock new, AreNew-weaken _ _ ws (Absent-weaken ss ts w.sock h) rest)

-- Connections join the list in the order in which they wait.
abbrev pub Accepted : Cache → List Waiting → Cache → Type 0
Accepted c ws c' =
    IsSound c' × (c'.marker ≡ c.marker) × (socks c'.active ≡ socks c.active ++ map (λ w. w.sock) ws)

map-append_one : (ns : List Node) (n : Node) → socks (ns ++ n ∷ []) ≡ socks ns ++ n.sock ∷ []
map-append_one [] n = refl
map-append_one (m ∷ ms) n = ap (λ xs. m.sock ∷ xs) (map-append_one ms n)

module _ (malloc : Malloc) (works : Allocates malloc) (now : ℕ) where
  pub accept_loop-Accepted :
      (slots ws : List Waiting) (i : ℕ) (c : Cache)
      → IsSound c
      → Slots slots i ws
      → AreNew (socks c.active) ws
      → Returns (Accepted c ws) (accept_loop malloc now slots (length ws) i c)
  unfolding accept_loop
  accept_loop-Accepted slots [] i c s here new = (s, refl, sym (append-nil _))
  accept_loop-Accepted slots (w ∷ ws) i c s (here, rest) (range, absent, new) =
      rw (at-done slots i w here, accept_loop)
        (Returns-bind (Added w.sock now w.port c) (Accepted c (w ∷ ws))
          (add_connection malloc now w.address w.port w.sock c) _
          (add_connection-Added w.sock c s absent malloc works now w.address w.port range)
          λ c' added.
            let grown = ap socks added.listed ∙ map-append_one c.active _ in
            Returns-map (Accepted c' ws) (Accepted c (w ∷ ws))
              (accept_loop malloc now slots (length ws) (suc i) c')
              (accept_loop-Accepted slots ws (suc i) c' added.sound rest
                (subst (λ ss. AreNew ss ws) (sym grown) new))
              λ c'' (sound, mark, listed). (
                sound,
                mark ∙ added.mark,
                listed
                    ∙ ap (λ xs. xs ++ map (λ v. v.sock) ws) grown
                    ∙ append_assoc (socks c.active) _ _,
              ))

Slots-later :
    (w : Waiting) (slots ws : List Waiting) (i : ℕ)
    → Slots slots i ws
    → Slots (w ∷ slots) (suc i) ws
Slots-later w slots [] i h = tt
Slots-later w slots (v ∷ vs) i h = (h.0, Slots-later w slots vs (suc i) h.1)

pub Slots-take : (slots : List Waiting) (n : ℕ) → Slots slots 0 (take n slots)
Slots-take slots zero = tt
Slots-take [] (suc n) = tt
Slots-take (w ∷ slots) (suc n) = (refl, Slots-later w slots (take n slots) 0 (Slots-take slots n))

-- The connections that wait.
abbrev pub waiting : ConnQueue → List Waiting
waiting q = take q.pre_index q.pre_queue

-- Within an fd_set.
abbrev pub InSet : List ℕ → Type 0
InSet ss = All (λ s. s < fd_setsize) ss

-- What holds of the queue between rounds: a pass never leaves connections over.
pub record IsReady (q : ConnQueue) : Type 0 where
  pub sound : IsSound q.cache
  pub at_start : q.cache.marker ≡ finish
  pub within : q.pre_index ≤ length q.pre_queue
  pub fits : length q.cache.active + q.pre_index ≤ fd_setsize
  pub in_set : InSet (socks q.cache.active ++ map (λ w. w.sock) (waiting q))
  pub new : AreNew (socks q.cache.active) (waiting q)

pub InSet-filter :
    (p : Node → Bool) (ns : List Node) → InSet (socks ns) → InSet (socks (filter p ns))
InSet-filter p [] h = tt
InSet-filter p (n ∷ ns) h = elim (Bool-cases (p n)) [
  | inl e ↦ rw e (h.0, InSet-filter p ns h.1)
  | inr e ↦ rw e (InSet-filter p ns h.1)
]

InSet-take : (n : ℕ) (ss : List ℕ) → InSet ss → InSet (take n ss)
InSet-take zero ss h = tt
InSet-take (suc n) [] h = tt
InSet-take (suc n) (s ∷ ss) h = (h.0, InSet-take n ss h.1)

pub InSet-left : (ss ts : List ℕ) → InSet (ss ++ ts) → InSet ss
InSet-left [] ts h = tt
InSet-left (s ∷ ss) ts h = (h.0, InSet-left ss ts h.1)

fd_set_all-done : (ss : List ℕ) → InSet ss → fd_set_all ss ≡ done ss
unfolding fd_set_all
fd_set_all-done [] h = refl
fd_set_all-done (s ∷ ss) h =
    rw (fd_set_all-done ss h.1, fd_set_all)
      (let b : ltb s fd_setsize ≡ true = ground (arith, h) in rw b refl)

-- What a pass of the whole list leaves, where all its sockets are within the fd_set.
pub prepare_connections-Passed :
    (c : Cache)
    → IsSound c
    → c.marker ≡ finish
    → InSet (socks c.active)
    → Returns (λ x. Passed c fd_setsize c.active x.0 x.1) (prepare_connections c)
unfolding prepare_connections
prepare_connections-Passed c sound at_start h =
    Returns-bind (λ x. Passed c fd_setsize c.active x.0 x.1) _ (set_active_connections fd_setsize c)
      _ (set_active_connections-Passed c sound 1023 c.active (inl (at_start, refl)))
      λ (pass, c') p.
        rw
          (
            fd_set_all-done pass.set
                (subst (λ ss. InSet ss) (sym p.set) (InSet-take fd_setsize (socks c.active) h)),
            ◌>>=◌,
          )
          p

module _ (malloc : Malloc) (works : Allocates malloc) (now : ℕ) where
  pub accept_waiting-Accepted :
      (q : ConnQueue)
      → IsReady q
      → Returns
          (λ q'. Accepted q.cache (waiting q) q'.cache × (q'.pre_index ≡ 0))
          (accept_waiting malloc now q)
  unfolding accept_waiting
  accept_waiting-Accepted q r =
      let len : length (waiting q) ≡ q.pre_index = length-take q.pre_index q.pre_queue r.within in
      Returns-bind (Accepted q.cache (waiting q)) _
        (accept_loop malloc now q.pre_queue q.pre_index 0 q.cache) _
        (subst
          (λ n.
            Returns (Accepted q.cache (waiting q)) (accept_loop malloc now q.pre_queue n 0 q.cache))
          len
          (accept_loop-Accepted malloc works now q.pre_queue (waiting q) 0 q.cache r.sound
            (Slots-take q.pre_queue q.pre_index) r.new))
        λ c a. (a, refl)

-- A write behind the first n elements.
store-take :
    (slots : List Waiting) (n : ℕ) (w : Waiting)
    → n < length slots
    → (slots' : List Waiting) × (store slots n w ≡ done slots')
      × (take (suc n) slots' ≡ take n slots ++ w ∷ [])
      × (length slots' ≡ length slots)
unfolding store
store-take [] n w h = absurd (omega arith)
store-take (v ∷ slots) zero w h = (w ∷ slots, refl, refl, refl)
store-take (v ∷ slots) (suc n) w h =
    let (slots', ran, cut, size) = store-take slots n w (omega arith) in
    (v ∷ slots', rw ran refl, ap (λ xs. v ∷ xs) cut, ap suc size)

-- Where the index is within the vector, cConnectionQueue::AddConnection returns, whether it uses a
-- slot again or makes one: the new connection waits behind the others, and the index is within the
-- vector.
pub queue_connection-waiting :
    (w : Waiting) (q : ConnQueue)
    → q.pre_index ≤ length q.pre_queue
    → Returns
        (λ q'. (waiting q' ≡ waiting q ++ w ∷ []) × (q'.pre_index ≤ length q'.pre_queue))
        (queue_connection w q)
unfolding queue_connection
queue_connection-waiting w q h = elim (Bool-cases (leb (length q.pre_queue) q.pre_index)) [
  | inl full ↦
      let more = length-append q.pre_queue (w ∷ []) in
      let (slots, ran, cut, size) =
        store-take (q.pre_queue ++ w ∷ []) q.pre_index w (omega (arith, more, h)) in
      rw (full, queue_connection)
        (rw (ran, ◌>>=◌)
          (
            cut ∙ ap (λ xs. xs ++ w ∷ []) (take-append_le q.pre_index q.pre_queue (w ∷ []) h),
            omega (arith, more, size, h),
          ))
  | inr room ↦
      let (slots, ran, cut, size) = store-take q.pre_queue q.pre_index w (ground (arith, room)) in
      rw (room, queue_connection) (rw (ran, ◌>>=◌) (cut, ground (arith, room, size)))
]
