-- ===== src/PeerRoutingMap.antt =====
-- peerroutingmap.h and peerroutingmap.cpp: cPeerRoutingMap, the peers by their tags. A char* is the
-- list of the bytes before its NUL; the lock is held throughout.
pub mod Found
use msg_courier.Prelude.{ℕ, ℤ, minus_one, Bool, true, false, Option, none, some, List, []}
use msg_courier.Dict.{Dict, lookup, insert}

pub record PeerRoutingRecord : Type 0 where
  pub key : List ℕ
  pub ip_address : List ℕ
  pub port : ℤ
  pub socketfd : ℤ

abbrev pub PeerMap : Type 0
PeerMap = Dict PeerRoutingRecord

-- A new cPeerRoutingRecord, whose two numbers have no value yet.
abbrev pub new_record : PeerRoutingRecord
new_record = record { key = []; ip_address = []; port = minus_one; socketfd = minus_one }

abbrev pub or_new : Option PeerRoutingRecord → PeerRoutingRecord
or_new none = new_record
or_new (some r) = r

-- AddRecord: the record of the key, or a new one, takes all four values.
unfoldable pub add_record : List ℕ → List ℕ → ℤ → ℤ → PeerMap → PeerMap
unfolding lookup insert
add_record key ip_address port socketfd peers =
    insert key
      (record (or_new (lookup key peers)) {
        key = key;
        ip_address = ip_address;
        port = port;
        socketfd = socketfd;
      })
      peers

abbrev pub is_found : Option PeerRoutingRecord → Bool
is_found none = false
is_found (some r) = true

unfoldable pub has_key : List ℕ → PeerMap → Bool
unfolding lookup
has_key key peers = is_found (lookup key peers)

abbrev pub socket_of : Option PeerRoutingRecord → ℤ
socket_of none = minus_one
socket_of (some r) = r.socketfd

unfoldable pub get_socket : List ℕ → PeerMap → ℤ
unfolding lookup
get_socket key peers = socket_of (lookup key peers)

unfoldable pub get_record : List ℕ → PeerMap → Option PeerRoutingRecord
unfolding lookup
get_record key peers = lookup key peers
