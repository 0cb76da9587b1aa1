-- ===== src/ConnectionCache/Marker.antt =====
-- What becomes of m_itIncompleteMarker when the connection under it is freed.
use msg_courier.Prelude.{ℕ, ◌≡◌, ◌≢◌, refl, sym, ap, ◌∙◌, subst, pos, List, [], ◌∷◌, ◌++◌, arith}
use msg_courier.Memory.{fault, ◌>>=◌, Returns-then}
use msg_courier.MsgPool.Cells.{Absent, Distinct}
use msg_courier.ConnectionCache.{node, Node, Cache, free_connection}
use msg_courier.ConnectionCache.Walk.{
  from_id, from_place, first_nodes, load_active, set_active_connections,
}
use msg_courier.ConnectionCache.Nodes.{ids, socks, without, Distinct-middle}
use msg_courier.ConnectionCache.Sound.{IsSound}
use msg_courier.ConnectionCache.Freeing.{Freed, free_connection-Freed}

from_id-fault : (i : ℕ) (ns : List Node) → Absent i (ids ns) → from_id i ns ≡ fault
unfolding from_id
from_id-fault i [] a = refl
from_id-fault i (n ∷ ns) a = ground (arith, from_id-fault i ns a.1, a.0)

-- A node is gone with its number.
Absent-gone :
    (ms : List Node) (n : Node) (ns : List Node)
    → Distinct (ids (ms ++ n ∷ ns))
    → Absent n.id (ids (ms ++ ns))
Absent-gone [] n ns d = d.0
Absent-gone (m ∷ ms) n ns d = (λ e. first_of m.id ms n ns d.0 (sym e), Absent-gone ms n ns d.1)
  where
    first_of :
        (j : ℕ) (ms : List Node) (n : Node) (ns : List Node)
        → Absent j (ids (ms ++ n ∷ ns))
        → n.id ≢ j
    first_of j [] n ns a = a.0
    first_of j (m ∷ ms) n ns a = first_of j ms n ns a.1

load_dangling :
    (size i : ℕ) (c : Cache) (m : Node) (ms : List Node)
    → c.marker ≡ node i
    → Absent i (ids (m ∷ ms))
    → load_active size c (m ∷ ms) ≡ fault
unfolding load_active first_nodes from_place
load_dangling size i c m ms e a =
    rw (e, first_nodes) (rw (from_id-fault i (m ∷ ms) a, from_place) refl)

-- On a sound cache, where a pass has left connections over, the first of those is freed and others
-- stay on the list, the next call of SetActiveConnections uses the iterator of the node that is
-- gone, which is undefined behaviour.
pub freed_marker-fault :
    (size : ℕ) (c : Cache) (pre : List Node) (n : Node) (ns : List Node) (m : Node) (ms : List Node)
    → IsSound c
    → c.active ≡ pre ++ n ∷ ns
    → c.marker ≡ node n.id
    → pre ++ ns ≡ m ∷ ms
    → (free_connection (pos n.sock) c >>= set_active_connections size) ≡ fault
unfolding set_active_connections
freed_marker-fault size c pre n ns m ms s split at others =
    Returns-then (Freed n.sock c) (free_connection (pos n.sock) c) (set_active_connections size)
      fault (free_connection-Freed n.sock c s)
      λ c' freed.
        let left =
          freed.rest
          ∙ ap (without n.sock) split
          ∙ (Distinct-middle pre n ns (subst (λ xs. Distinct (socks xs)) split s.once)).1
          ∙ others in
        let gone =
          subst (λ xs. Absent n.id (ids xs)) others
            (Absent-gone pre n ns (subst (λ xs. Distinct (ids xs)) split s.numbered)) in
        rw (left, set_active_connections)
          (rw (load_dangling size n.id c' m ms (freed.mark ∙ at) gone, ◌>>=◌) refl)
