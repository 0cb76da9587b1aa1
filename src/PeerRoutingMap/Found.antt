-- ===== src/PeerRoutingMap/Found.antt =====
-- What is found in a map to which peers have been added, one after the other.
use msg_courier.Prelude.{ℕ, ◌≡◌, refl, ◌∙◌, ap, Option, none, some, List, [], ◌∷◌, if◌then◌else◌}
use msg_courier.Dict.{order, is_eq, lookup}
use msg_courier.Dict.Laws.{lookup-insert}
use msg_courier.PeerRoutingMap.{
  PeerRoutingRecord, PeerMap, is_found, socket_of, add_record, has_key, get_socket, get_record,
}

-- AddRecord with the values of each record
unfoldable pub add_all : List PeerRoutingRecord → PeerMap → PeerMap
unfolding add_record
add_all [] peers = peers
add_all (r ∷ rs) peers = add_all rs (add_record r.key r.ip_address r.port r.socketfd peers)

-- The last record that has the key.
abbrev pub latest :
    List ℕ → List PeerRoutingRecord → Option PeerRoutingRecord → Option PeerRoutingRecord
latest key [] old = old
latest key (r ∷ rs) old = latest key rs (if is_eq (order key r.key) then some r else old)

lookup-add_all :
    (key : List ℕ) (rs : List PeerRoutingRecord) (peers : PeerMap)
    → lookup key (add_all rs peers) ≡ latest key rs (lookup key peers)
unfolding add_all add_record
lookup-add_all key [] peers = refl
lookup-add_all key (r ∷ rs) peers =
    lookup-add_all key rs (add_record r.key r.ip_address r.port r.socketfd peers)
    ∙ ap (latest key rs) (lookup-insert key r.key r peers)

-- After AddRecord of any records, HasKey, GetSocket and GetRecord of a key answer for the last
-- record that was added with it; a key that was not added has none, and -1 for its socket.
pub get-add_all :
    (key : List ℕ) (rs : List PeerRoutingRecord)
    → let peers = add_all rs [] in
      (has_key key peers ≡ is_found (latest key rs none))
      × (get_socket key peers ≡ socket_of (latest key rs none))
      × (get_record key peers ≡ latest key rs none)
unfolding has_key get_socket get_record lookup
get-add_all key rs =
    let e : lookup key (add_all rs []) ≡ latest key rs none = lookup-add_all key rs [] in
    (ap is_found e, ap socket_of e, e)
