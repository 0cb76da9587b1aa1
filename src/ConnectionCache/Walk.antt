-- ===== src/ConnectionCache/Walk.antt =====
-- The walks of connectioncache.cpp along m_ActiveConnectionList: SetActiveConnections,
-- TimeoutConnections, the enumerator and the counts.
use msg_courier.Prelude.{
  ℕ, zero, suc, ◌+◌, ℤ, pos, negsuc, Bool, true, false, ◌&&◌, ◌||◌, not, Option, none, some, List,
  [], ◌∷◌, ◌++◌, ltb, ◌==◌, if◌then◌else◌, length,
}
use msg_courier.Memory.{Outcome, done, throws, fault, ◌>>=◌}
use msg_courier.Buffer.{get_buffer_count}
use msg_courier.ConnectionCache.{
  Place, node, finish, singular, is_waiting, is_none, Conn, Node, Table, Cache, in_bounds,
  free_connection,
}

-- The nodes from an iterator on.
unfoldable pub from_id : ℕ → List Node → Outcome (List Node)
from_id i [] = fault
from_id i (n ∷ ns) = elim (n.id == i) [ true ↦ done (n ∷ ns) | false ↦ from_id i ns ]

unfoldable pub from_place : Place → List Node → Outcome (List Node)
unfolding from_id
from_place (node i) ns = from_id i ns
from_place finish ns = done []
from_place singular ns = fault

-- The iterator to the first of the nodes left.
abbrev pub place_of : List Node → Place
place_of [] = finish
place_of (n ∷ ns) = node n.id

-- The record that a node points to is in the map, which never loses one.
unfoldable pub record_of : Table → Node → Outcome Conn
record_of t n = elim (t n.sock) [ none ↦ fault | some r ↦ done r ]

-- What a pass of SetActiveConnections leaves: m_it, m_itIncompleteMarker, *maxsocketfd and the
-- sockets given to FD_SET. The fd_set is the caller's: what FD_SET does with them is written with it.
pub record Pass : Type 0 where
  pub at : Place
  pub left : Place
  pub max : ℕ
  pub set : List ℕ

unfoldable pub load : ℕ → Pass → Pass
load s pass = record pass { max = if ltb pass.max s then s else pass.max; set = pass.set ++ s ∷ [] }

-- MC_ASSERT(curSocketfd > 0 && curSocketfd < 65536)
unfoldable pub checked : ℤ → Outcome ℕ
checked (negsuc n) = throws
checked (pos s) = if in_bounds s then done s else throws

unfoldable pub load_loop : Table → (size count : ℕ) → List Node → Pass → Outcome Pass
unfolding record_of load checked
load_loop t size count [] pass = done (record pass { at = finish })
load_loop t size count (n ∷ ns) pass = do
  r ← record_of t n
  elim (is_waiting r.state) [
    | false ↦ load_loop t size count ns pass
    | true ↦ do
      s ← checked r.socketfd
      elim (suc count == size) [
        | true ↦ done (record (load s pass) { at = node n.id; left = place_of ns })
        | false ↦ load_loop t size (suc count) ns (load s pass)
      ]
  ]

-- From the marker, or from the start where it is end().
unfoldable pub first_nodes : Place → List Node → Outcome (List Node)
unfolding from_place
first_nodes finish ns = done ns
first_nodes (node i) ns = from_place (node i) ns
first_nodes singular ns = fault

unfoldable pub no_pass : Cache → Pass
no_pass c = record { at = c.cursor; left = c.marker; max = 0; set = [] }

unfoldable pub load_active : ℕ → Cache → List Node → Outcome Pass
unfolding first_nodes load_loop no_pass
load_active size c [] = done (no_pass c)
load_active size c (n ∷ ns) = do
  start ← first_nodes c.marker (n ∷ ns)
  load_loop c.table size 0 start (record (no_pass c) { left = finish })

unfoldable pub set_active_connections : ℕ → Cache → Outcome (Pass × Cache)
unfolding load_active
set_active_connections size c = do
  pass ← load_active size c c.active
  done (pass, record c { cursor = pass.at; marker = pass.left })

unfoldable pub is_stale : (now timeout : ℕ) → Conn → Bool
is_stale now timeout r =
    not r.pending_write && is_waiting r.state && ltb (r.timestamp + timeout) now

-- The loop of TimeoutConnections with the nodes from m_it on; none means that the fuel ran out.
unfoldable pub timeout_loop : ℕ → (now timeout : ℕ) → List Node → Cache → Outcome (Option Cache)
unfolding record_of is_stale free_connection
timeout_loop zero now timeout ns c = done none
timeout_loop (suc f) now timeout [] c = done (some (record c { cursor = finish }))
timeout_loop (suc f) now timeout (n ∷ ns) c = do
  r ← record_of c.table n
  elim (is_stale now timeout r) [
    | true ↦ do c' ← free_connection r.socketfd c; timeout_loop f now timeout c'.active c'
    | false ↦ timeout_loop f now timeout ns c
  ]

-- An empty list leaves m_it where it is.
unfoldable pub timeout_from : ℕ → (now timeout : ℕ) → List Node → Cache → Outcome (Option Cache)
unfolding timeout_loop
timeout_from fuel now timeout [] c = done (some c)
timeout_from fuel now timeout (n ∷ ns) c = timeout_loop fuel now timeout (n ∷ ns) c

unfoldable pub timeout_connections : ℕ → (now timeout : ℕ) → Cache → Outcome (Option Cache)
unfolding timeout_from
timeout_connections fuel now timeout c = timeout_from fuel now timeout c.active c

unfoldable pub reset_enumerator : Cache → Cache
reset_enumerator c = record c { cursor = place_of c.active }

unfoldable pub is_set : (ℤ → Bool) → Conn → Bool
unfolding get_buffer_count
is_set isset r =
    is_waiting r.state
    && is_none r.active_handler
    && (isset r.socketfd || ltb 0 (get_buffer_count r.buffer))

-- The first node that is ready, and the nodes from m_it on.
unfoldable pub next_loop : (ℤ → Bool) → Table → List Node → Outcome (Option ℕ × List Node)
unfolding record_of is_set
next_loop isset t [] = done (none, [])
next_loop isset t (n ∷ ns) = do
  r ← record_of t n
  elim (is_set isset r) [ true ↦ done (some n.sock, ns) | false ↦ next_loop isset t ns ]

unfoldable pub get_next_set_record : (ℤ → Bool) → Cache → Outcome (Option ℕ × Cache)
unfolding from_place next_loop
get_next_set_record isset c = do
  ns ← from_place c.cursor c.active
  (rec, rest) ← next_loop isset c.table ns
  done (rec, record c { cursor = place_of rest })

unfoldable pub count_loop : Table → ℕ → List Node → Outcome ℕ
unfolding record_of
count_loop t count [] = done count
count_loop t count (n ∷ ns) = do
  r ← record_of t n
  count_loop t (if is_waiting r.state then suc count else count) ns

unfoldable pub get_active_connection_count : Cache → Outcome (ℕ × Cache)
unfolding count_loop
get_active_connection_count c = do
  n ← count_loop c.table 0 c.active
  done (n, record c { cursor = finish })

unfoldable pub get_total_connection_entries : Cache → ℕ
get_total_connection_entries c = length c.active
