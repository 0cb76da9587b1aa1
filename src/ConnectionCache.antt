-- ===== src/ConnectionCache.antt =====
-- connectioncache.h, connectioncache.cpp and connectionrecord.h: the table of TCP connections by
-- socket, and the list of those that are active. A pointer to a record of m_ConnectionMap is the
-- socket that the map keeps it under. A node of m_ActiveConnectionList has a number of its own, so
-- that an iterator can outlive it, as in the source; using it then is undefined behaviour. FD_SET,
-- FD_ISSET and close are calls of the system: the first and the last are listed, and the second is
-- a parameter. A false MC_ASSERT throws a text, and a failed allocation a cException; no handler of
-- these functions catches either but `catch (...)`, which meets neither.

pub mod Walk
pub mod Nodes
pub mod Sound
pub mod Freeing
pub mod Adding
pub mod Timeout
pub mod Passes
pub mod Sweep
pub mod Counts
pub mod Marker
use msg_courier.Prelude.{
  ℕ, zero, suc, ◌+◌, ◌≡◌, ℤ, pos, negsuc, minus_one, Bool, true, false, ◌&&◌, ◌||◌, not, Option,
  none, some, List, [], ◌∷◌, ◌++◌, ltb, ◌==◌, if◌then◌else◌, length,
}
use msg_courier.Memory.{Outcome, done, throws, fault, ◌>>=◌, Block, Malloc}
use msg_courier.Buffer.{Buffer, new, set_buffer_size, reset, get_buffer_count}

-- An iterator: at a node, end(), or the one that a default constructor makes.
pub data Place : Type 0 where
  node : ℕ → Place
  finish : Place
  singular : Place

pub data ConnState : Type 0 where
  crs_free crs_waiting : ConnState

abbrev pub is_waiting : ConnState → Bool
is_waiting crs_free = false
is_waiting crs_waiting = true

abbrev pub is_none {ℓ} : {A : Type ℓ} → Option A → Bool
is_none none = true
is_none (some a) = false

pub record Conn : Type 0 where
  pub socketfd : ℤ
  pub address : Block
  pub arrival_port : ℤ
  pub timestamp : ℕ
  pub state : ConnState
  pub pending_write : Bool
  pub buffer : Buffer
  pub active_handler : Option ℕ
  pub place : Place

-- What m_ConnectionMap[s] makes of a socket it does not have: all zero but for what constructors do.
unfoldable pub blank : Conn
unfolding new
blank = record {
  socketfd = pos 0;
  address = [];
  arrival_port = pos 0;
  timestamp = 0;
  state = crs_free;
  pending_write = false;
  buffer = new;
  active_handler = none;
  place = singular;
}

pub record Node : Type 0 where
  pub id : ℕ
  pub sock : ℕ

abbrev pub Table : Type 0
Table = ℕ → Option Conn

-- `fresh` is the number of the next node, and `closed` lists the calls of close().
pub record Cache : Type 0 where
  pub table : Table
  pub active : List Node
  pub cursor : Place
  pub marker : Place
  pub fresh : ℕ
  pub closed : List ℤ

unfoldable pub put_record : ℕ → Conn → Table → Table
put_record s r t k = if k == s then some r else t k

unfoldable pub new_cache : Cache
new_cache = record {
  table = λ s. none;
  active = [];
  cursor = singular;
  marker = finish;
  fresh = 0;
  closed = [];
}

-- MC_ASSERT(Socketfd > 0 && Socketfd < 65536)
abbrev pub in_bounds : ℕ → Bool
in_bounds s = ltb 0 s && ltb s 65536

unfoldable pub or_blank : Option Conn → Conn
unfolding blank
or_blank none = blank
or_blank (some r) = r

-- push_back, and the iterator to the new node
unfoldable pub link : ℕ → Conn → Cache → Cache
unfolding put_record
link s r c = record c {
  table = put_record s (record r { place = node c.fresh }) c.table;
  active = c.active ++ record { id = c.fresh; sock = s } ∷ [];
  fresh = suc c.fresh;
}

abbrev pub arrival : (now : ℕ) (address : Block) (port : ℤ) → ℕ → Buffer → Conn → Conn
arrival now address port s sized r = record r {
  arrival_port = port;
  address = address;
  socketfd = pos s;
  timestamp = now;
  buffer = sized;
  active_handler = none;
  pending_write = false;
  state = crs_waiting;
}

unfoldable pub admit :
    Malloc → (now : ℕ) (address : Block) (port : ℤ) → ℕ → Conn → Cache → Outcome Cache
unfolding link reset
admit malloc now address port s r c = do
  sized ← set_buffer_size malloc 8096 r.buffer
  done (link s (arrival now address port s (reset sized) r) c)

unfoldable pub add_connection :
    Malloc → (now : ℕ) (address : Block) (port : ℤ) → ℕ → Cache → Outcome Cache
unfolding admit or_blank
add_connection malloc now address port s c =
    if in_bounds s then admit malloc now address port s (or_blank (c.table s)) c else throws

unfoldable pub close_socket : ℤ → Cache → Cache
close_socket s c = record c { closed = c.closed ++ s ∷ [] }

unfoldable pub unlink : ℕ → List Node → Outcome (List Node)
unlink i [] = fault
unlink i (n ∷ ns) = elim (n.id == i) [
  | true ↦ done ns
  | false ↦ do rest ← unlink i ns; done (n ∷ rest)
]

-- m_ActiveConnectionList.erase, unless the iterator is end().
unfoldable pub erase : Place → List Node → Outcome (List Node)
unfolding unlink
erase (node i) ns = unlink i ns
erase finish ns = done ns
erase singular ns = fault

unfoldable pub freed : Conn → Conn
freed r = record r {
  state = crs_free;
  active_handler = none;
  socketfd = minus_one;
  pending_write = false;
  place = finish;
}

unfoldable pub free_known : ℕ → Conn → Cache → Outcome Cache
unfolding erase close_socket freed put_record
free_known s r c = do
  ns ← erase r.place c.active
  done (close_socket (pos s) (record c { active = ns; table = put_record s (freed r) c.table }))

-- The map has no record under a negative socket, since add_connection and get_connection_record
-- make none.
unfoldable pub free_connection : ℤ → Cache → Outcome Cache
unfolding free_known close_socket
free_connection (negsuc zero) c = done c
free_connection (negsuc (suc n)) c = done (close_socket (negsuc (suc n)) c)
free_connection (pos s) c = elim (c.table s) [
  | none ↦ done (close_socket (pos s) c)
  | some r ↦ free_known s r c
]

-- The pointer is none for NULL.
unfoldable pub get_connection_record : ℤ → Cache → Outcome (Option ℕ × Cache)
unfolding put_record or_blank
get_connection_record (negsuc zero) c = done (none, c)
get_connection_record (negsuc (suc n)) c = throws
get_connection_record (pos zero) c = done (none, c)
get_connection_record (pos (suc s)) c =
    if in_bounds (suc s)
    then done
        (some (suc s), record c { table = put_record (suc s) (or_blank (c.table (suc s))) c.table })
    else throws

unfoldable pub mark : Option ℕ → Cache → Cache
unfolding put_record or_blank
mark none c = c
mark (some s) c = record c {
  table = put_record s (record (or_blank (c.table s)) { pending_write = true }) c.table;
}

unfoldable pub mark_pending_write : ℤ → Cache → Outcome Cache
unfolding get_connection_record mark
mark_pending_write s c = do (rec, c') ← get_connection_record s c; done (mark rec c')
