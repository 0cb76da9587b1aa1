-- ===== src/ConnectionQueue/Round.antt =====
-- cConnectionQueue between its callers and the cache: the connections that wait to be added
-- (m_PreQueue and m_PreQueueIndex), and one round of Run up to the inbound tasks. `select` is a
-- call of the system: it turns the sockets of a pass into the test that FD_ISSET is afterwards.
use msg_courier.Prelude.{
  ℕ, zero, suc, ℤ, Bool, false, Option, none, some, List, [], ◌∷◌, ◌++◌, leb, ltb, ◌==◌,
  if◌then◌else◌, length,
}
use msg_courier.Memory.{Outcome, done, fault, ◌>>=◌, Block, Malloc}
use msg_courier.Memory.Vector.{at, store}
use msg_courier.Timer
use msg_courier.Timer.{Timer}
use msg_courier.ConnectionCache.{Cache, add_connection}
use msg_courier.ConnectionCache.Walk.{Pass, set_active_connections, timeout_connections}
use msg_courier.ConnectionQueue.{Handler, process_inbound_tasks}

pub record Waiting : Type 0 where
  pub sock : ℕ
  pub address : Block
  pub port : ℤ

pub record ConnQueue : Type 0 where
  pub cache : Cache
  pub pre_queue : List Waiting
  pub pre_index : ℕ
  pub timer : Timer
  pub timeout : ℕ

-- A slot of the vector is used again before a new one is made; what push_back puts in the new one
-- is overwritten at once.
unfoldable pub queue_connection : Waiting → ConnQueue → Outcome ConnQueue
unfolding store
queue_connection w q = do
  slots ←
      store (if leb (length q.pre_queue) q.pre_index then q.pre_queue ++ w ∷ [] else q.pre_queue)
        q.pre_index w
  done (record q { pre_queue = slots; pre_index = suc q.pre_index })

unfoldable pub accept_loop : Malloc → ℕ → List Waiting → (rounds i : ℕ) → Cache → Outcome Cache
unfolding at
accept_loop malloc now slots zero i c = done c
accept_loop malloc now slots (suc n) i c = do
  w ← at slots i
  c' ← add_connection malloc now w.address w.port w.sock c
  accept_loop malloc now slots n (suc i) c'

unfoldable pub accept_waiting : Malloc → ℕ → ConnQueue → Outcome ConnQueue
unfolding accept_loop
accept_waiting malloc now q = do
  c ← accept_loop malloc now q.pre_queue q.pre_index 0 q.cache
  done (record q { cache = c; pre_index = 0 })

unfoldable pub expired : Option Cache → ℕ → ConnQueue → Option ConnQueue
unfolding Timer.reset_timer
expired none now q = none
expired (some c) now q = some (record q { cache = c; timer = Timer.reset_timer now q.timer })

unfoldable pub expire : ℕ → ℕ → ConnQueue → Outcome (Option ConnQueue)
unfolding Timer.is_ready expired
expire fuel now q =
    if Timer.is_ready now q.timer
    then (do o ← timeout_connections fuel now q.timeout q.cache; done (expired o now q))
    else done (some q)

abbrev pub fd_setsize : ℕ
fd_setsize = 1024

-- What FD_SET does with a socket from fd_setsize on is not defined: it writes behind the fd_set.
unfoldable pub fd_set_all : List ℕ → Outcome (List ℕ)
fd_set_all [] = done []
fd_set_all (s ∷ ss) = do rest ← fd_set_all ss; if ltb s fd_setsize then done (s ∷ rest) else fault

-- The sockets that SetActiveConnections gives to FD_SET, in m_stReadfds.
unfoldable pub prepare_connections : Cache → Outcome (Pass × Cache)
unfolding fd_set_all
prepare_connections c = do
  (pass, c') ← set_active_connections fd_setsize c
  set ← fd_set_all pass.set
  done (record pass { set = set }, c')

-- select, which is not called for a set that is empty
unfoldable pub check_connections : (List ℕ → ℤ → Bool) → Pass → ℤ → Bool
check_connections select pass s = if pass.max == 0 then false else select pass.set s

abbrev pub Round : Type 0
Round = Outcome (Option (List ℕ × ConnQueue))

abbrev pub with_tasks : ConnQueue → Option (List ℕ × Cache) → Option (List ℕ × ConnQueue)
with_tasks q none = none
with_tasks q (some (ss, c)) = some (ss, record q { cache = c })

unfoldable pub run_tasks : ℕ → Malloc → ℕ → (List ℕ → ℤ → Bool) → Handler → Option ConnQueue → Round
unfolding accept_waiting prepare_connections check_connections
run_tasks fuel malloc now select handle none = done none
run_tasks fuel malloc now select handle (some q) = do
  q' ← accept_waiting malloc now q
  (pass, c) ← prepare_connections q'.cache
  tasks ← process_inbound_tasks fuel handle (check_connections select pass) c
  done (with_tasks q' tasks)

-- The sockets whose records were handled, and the queue after the round; none means that the fuel
-- ran out.
unfoldable pub run_round : ℕ → Malloc → ℕ → (List ℕ → ℤ → Bool) → Handler → ConnQueue → Round
unfolding expire run_tasks
run_round fuel malloc now select handle q = do
  o ← expire fuel now q
  run_tasks fuel malloc now select handle o
