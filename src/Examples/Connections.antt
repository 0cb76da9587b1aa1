-- ===== src/Examples/Connections.antt =====
-- Two connections, for connectioncache.cpp and connectionqueue.cpp, and two words for
-- levenshtein.cpp.
use msg_courier.Prelude.{
  Option, none, inr, ◌≡◌, refl, pos, true, false, some, [], ◌∷◌, inl, arith, replicate,
  length-replicate,
}
use msg_courier.Memory.{Malloc, Allocates, Returns, done, fault, ◌>>=◌}
use msg_courier.Buffer
use msg_courier.Buffer.Valid
use msg_courier.ConnectionCache.{
  Cache, Conn, node, finish, new_cache, blank, arrival, link, put_record, add_connection,
  free_connection,
}
use msg_courier.ConnectionCache.Walk.{set_active_connections, timeout_connections}
use msg_courier.ConnectionCache.Sound.{IsSound, new_cache-IsSound}
use msg_courier.ConnectionCache.Adding.{Added, link-IsSound, add_connection-Added}
use msg_courier.ConnectionCache.Freeing.{Freed, free_connection-Freed}
use msg_courier.ConnectionCache.Timeout.{restarts, Finished, timeout_connections-Finished}
use msg_courier.ConnectionCache.Passes.{moved-IsSound}
use msg_courier.ConnectionCache.Sweep.{sweep, Swept, sweep-Swept}
use msg_courier.ConnectionCache.Marker.{freed_marker-fault}
use msg_courier.ConnectionQueue.{Handler, process_inbound_tasks}
use msg_courier.ConnectionQueue.Inbound.{IsTame, Tended}
use msg_courier.ConnectionQueue.Tasks.{process_inbound_tasks-Tended}
use msg_courier.ConnectionQueue.Round.{Waiting, ConnQueue, run_round}
use msg_courier.ConnectionQueue.Ready.{IsReady}
use msg_courier.ConnectionQueue.Rounds.{Rested, run_round-Rested}
use msg_courier.ConnectionQueue.Outbound.{
  Handled, returned, thrown, OutHandler, Outbound, process_outbound_tasks,
}
use msg_courier.ConnectionQueue.Sending.{IsTameOut, IsOutbound, Returned, Leaves}
use msg_courier.ConnectionQueue.Sent.{
  Emptied, process_outbound_tasks-Emptied, Stuck, process_outbound_tasks-Stuck,
}
use msg_courier.Msg.{
  Msg, ConnectionType, ct_notset, ib_udp, ob_udp, ib_tcp, ob_tcp, internal, inuse,
}
use msg_courier.Examples.Messages
use msg_courier.Levenshtein.{distance}
use msg_courier.Levenshtein.Reference.{dist}
use msg_courier.Levenshtein.Rows.{distance-dist}

abbrev room : Malloc
room n = some (replicate n 0)

room_lem : Allocates room
room_lem n = (replicate n 0, refl, length-replicate n 0)

-- Socket 4 has waited since 100, socket 5 since 990.
abbrev early : Conn
early = arrival 100 [] (pos 80) 4 Buffer.new blank

abbrev late : Conn
late = arrival 990 [] (pos 80) 5 Buffer.new blank

abbrev two : Cache
two = link 5 late (link 4 early new_cache)

two-IsSound : IsSound two
unfolding link new_cache
two-IsSound =
    link-IsSound 5 (link 4 early new_cache)
      (link-IsSound 4 new_cache new_cache-IsSound tt early refl refl refl Valid.new-IsValid)
      ((λ e. omega (arith, e)), tt) late refl refl refl Valid.new-IsValid

add_connection-Added_example :
    Returns (Added 6 1000 (pos 80) two) (add_connection room 1000 [] (pos 80) 6 two)
unfolding link new_cache
add_connection-Added_example =
    add_connection-Added 6 two two-IsSound ((λ e. omega (arith, e)), ((λ e. omega (arith, e)), tt))
      room room_lem 1000 [] (pos 80) refl

free_connection-Freed_example : Returns (Freed 4 two) (free_connection (pos 4) two)
free_connection-Freed_example = free_connection-Freed 4 two two-IsSound

timeout_connections-Finished_example :
    Returns (Finished 1000 60 two) (timeout_connections 9 1000 60 two)
unfolding link new_cache restarts
timeout_connections-Finished_example =
    timeout_connections-Finished 1000 60 9 two two-IsSound (omega arith)

sweep-Swept_example : Returns (Swept two two.active) (sweep 3 1 two)
unfolding link new_cache
sweep-Swept_example = sweep-Swept 0 3 two two.active two-IsSound (inl (refl, refl)) (omega arith)

-- A pass has stopped before the first node.
abbrev left_over : Cache
left_over = record two { cursor = finish; marker = node 0 }

freed_marker-fault_example :
    (free_connection (pos 4) left_over >>= set_active_connections 1) ≡ fault
unfolding link new_cache
freed_marker-fault_example =
    freed_marker-fault 1 left_over [] (record { id = 0; sock = 4 })
      (record { id = 1; sock = 5 } ∷ []) (record { id = 1; sock = 5 }) []
      (moved-IsSound two two-IsSound finish (node 0)) refl refl refl

abbrev hang_up : Handler
hang_up s r = (r, true)

hang_up-IsTame : IsTame hang_up
hang_up-IsTame = record {
  state = λ s r. refl;
  socketfd = λ s r. refl;
  place = λ s r. refl;
  buffer = λ s r v. v;
}

process_inbound_tasks-Tended_example :
    Returns
      (Tended hang_up hang_up-IsTame (λ s. true) two [] two.active)
      (process_inbound_tasks 3 hang_up (λ s. true) two)
unfolding link new_cache
process_inbound_tasks-Tended_example =
    process_inbound_tasks-Tended hang_up hang_up-IsTame (λ s. true) 3 two two-IsSound (omega arith)

abbrev caller : Waiting
caller = record { sock = 6; address = []; port = pos 80 }

abbrev desk : ConnQueue
desk = record {
  cache = two;
  pre_queue = caller ∷ [];
  pre_index = 1;
  timer = record { stopped = false; seconds = 1; timestamp = 900 };
  timeout = 60;
}

desk-IsReady : IsReady desk
unfolding link new_cache
desk-IsReady = record {
  sound = two-IsSound;
  at_start = refl;
  within = omega arith;
  fits = omega arith;
  in_set = (omega arith, (omega arith, (omega arith, tt)));
  new = (refl, ((λ e. omega (arith, e)), ((λ e. omega (arith, e)), tt)), tt);
}

run_round-Rested_example : Returns Rested (run_round 9 room 1000 (λ ss s. true) hang_up desk)
unfolding link new_cache restarts
run_round-Rested_example =
    run_round-Rested room room_lem 1000 (λ ss s. true) hang_up hang_up-IsTame 9 desk desk-IsReady
      (omega arith)

abbrev answer : Msg
answer = record (Messages.message inuse ob_tcp 0) { tcp_socket = pos 4 }

abbrev astray : Msg
astray = record (Messages.message inuse ob_tcp 0) { tcp_socket = pos 70000 }

abbrev datagram : Msg
datagram = Messages.message inuse ob_udp 0

-- A message that is not outbound is refused.
abbrev reply_by : ConnectionType → Msg → Option Conn → Handled
reply_by ob_udp m r = returned m r false
reply_by ob_tcp m r = returned m r true
reply_by ct_notset m r = thrown m r
reply_by ib_udp m r = thrown m r
reply_by ib_tcp m r = thrown m r
reply_by internal m r = thrown m r

abbrev reply_to : OutHandler
reply_to m r = reply_by m.connection m r

Leaves-self : (r : Option Conn) → Leaves r r
Leaves-self none = tt
Leaves-self (some r) = ((refl, refl, refl), λ v. v)

reply-Returned :
    (t : ConnectionType) (m : Msg) (r : Option Conn) → IsOutbound t → Returned r (reply_by t m r)
reply-Returned ob_udp m r out = Leaves-self r
reply-Returned ob_tcp m r out = Leaves-self r
reply-Returned ct_notset m r (inl e) = absurd (ground (arith, e))
reply-Returned ct_notset m r (inr e) = absurd (ground (arith, e))
reply-Returned ib_udp m r (inl e) = absurd (ground (arith, e))
reply-Returned ib_udp m r (inr e) = absurd (ground (arith, e))
reply-Returned ib_tcp m r (inl e) = absurd (ground (arith, e))
reply-Returned ib_tcp m r (inr e) = absurd (ground (arith, e))
reply-Returned internal m r (inl e) = absurd (ground (arith, e))
reply-Returned internal m r (inr e) = absurd (ground (arith, e))

reply_to-IsTameOut : IsTameOut reply_to
reply_to-IsTameOut = record { ends = λ m r out. reply-Returned m.connection m r out }

abbrev outgoing : Outbound
outgoing = record { cache = two; messages = answer ∷ datagram ∷ answer ∷ [] }

process_outbound_tasks-Emptied_example :
    Returns (Emptied reply_to outgoing) (process_outbound_tasks reply_to outgoing)
unfolding link new_cache put_record
process_outbound_tasks-Emptied_example =
    process_outbound_tasks-Emptied reply_to reply_to-IsTameOut outgoing two-IsSound
      (inr (3, _, refl, refl, refl), (tt, (inr (3, _, refl, refl, refl), tt)))

process_outbound_tasks-Stuck_example :
    Returns (Stuck reply_to two (answer ∷ []) (astray ∷ answer ∷ [])) (
      process_outbound_tasks reply_to
        (record { cache = two; messages = answer ∷ astray ∷ answer ∷ [] }))
unfolding link new_cache put_record
process_outbound_tasks-Stuck_example =
    process_outbound_tasks-Stuck reply_to reply_to-IsTameOut (answer ∷ []) (answer ∷ []) astray two
      two-IsSound (inr (3, _, refl, refl, refl), tt) (inl (refl, refl))

-- "cab" and "cba"
distance-dist_example :
    distance (99 ∷ 97 ∷ 98 ∷ []) (99 ∷ 98 ∷ 97 ∷ [])
    ≡ done (dist (99 ∷ 97 ∷ 98 ∷ []) (99 ∷ 98 ∷ 97 ∷ []) 3 3)
distance-dist_example = distance-dist (99 ∷ 97 ∷ 98 ∷ []) (99 ∷ 98 ∷ 97 ∷ [])

-- Two letters that change places cost one step, but at the start of the words they cost two.
swap_within : distance (99 ∷ 97 ∷ 98 ∷ []) (99 ∷ 98 ∷ 97 ∷ []) ≡ done 1
unfolding distance
swap_within = refl

swap_at_start : distance (97 ∷ 98 ∷ []) (98 ∷ 97 ∷ []) ≡ done 2
unfolding distance
swap_at_start = refl
