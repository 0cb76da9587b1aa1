-- ===== src/ConnectionQueue/Outbound.antt =====
-- SendMsg and ProcessOutboundTasks of cConnectionQueue. m_outbound_priority_queue is the list of its
-- messages in the order in which top() has them; what push does to it is a parameter, as is the
-- outbound handler: what it leaves of the message and of the record that it was given, and
-- DoCloseConnection after it, or that it threw. The catches of the two functions take what is
-- thrown, and leave what was done before.
use msg_courier.Prelude.{ℕ, suc, Bool, Option, none, some, List, [], ◌∷◌}
use msg_courier.Memory.{Outcome, done, throws, fault, ◌>>=◌}
use msg_courier.Msg.{Msg, ConnectionType, ct_notset, ib_udp, ob_udp, ib_tcp, ob_tcp, internal}
use msg_courier.ConnectionCache.{Conn, Cache, put_record, get_connection_record, mark_pending_write}
use msg_courier.ConnectionQueue.{close_if}

pub data Handled : Type 0 where
  returned : Msg → Option Conn → Bool → Handled
  thrown : Msg → Option Conn → Handled

abbrev pub OutHandler : Type 0
OutHandler = Msg → Option Conn → Handled

abbrev pub Pushes : Type 0
Pushes = Msg → List Msg → List Msg

pub record Outbound : Type 0 where
  pub cache : Cache
  pub messages : List Msg

unfoldable pub caught {ℓ} : {A : Type ℓ} → Outcome A → A → Outcome A
caught (done a) before = done a
caught throws before = done before
caught fault before = fault

unfoldable pub mark_by : ConnectionType → Msg → Cache → Outcome Cache
mark_by ob_tcp m c = mark_pending_write m.tcp_socket c
mark_by ob_udp m c = mark_pending_write m.udp_socket c
mark_by ct_notset m c = done c
mark_by ib_udp m c = done c
mark_by ib_tcp m c = done c
mark_by internal m c = done c

unfoldable pub send_msg : Pushes → Msg → Outbound → Outcome Outbound
unfolding caught mark_by
send_msg push m o = do
  c ← caught (mark_by m.connection m o.cache) o.cache
  done (record { cache = c; messages = push m o.messages })

-- What the handler leaves of the record that it was given.
unfoldable pub leave : Option ℕ → Option Conn → Cache → Cache
unfolding put_record
leave none r c = c
leave (some s) none c = c
leave (some s) (some r) c = record c { table = put_record s r c.table }

abbrev pub pointed : Option ℕ → Cache → Option Conn
pointed none c = none
pointed (some s) c = c.table s

-- The pointer to the record that a message by TCP goes to, and NULL for the others.
unfoldable pub record_by : ConnectionType → Msg → Cache → Outcome (Option ℕ × Cache)
unfolding get_connection_record
record_by ob_tcp m c = get_connection_record m.tcp_socket c
record_by ct_notset m c = done (none, c)
record_by ib_udp m c = done (none, c)
record_by ob_udp m c = done (none, c)
record_by ib_tcp m c = done (none, c)
record_by internal m c = done (none, c)

-- A message is popped after its round, or it stays at the top where something was thrown.
pub data Sending : Type 0 where
  popped : Cache → Sending
  stays : Msg → Cache → Sending

-- What was thrown, if anything, is caught.
abbrev pub caught_by : Outcome Cache → Msg → Cache → Outcome Sending
caught_by (done c) m before = done (popped c)
caught_by throws m before = done (stays m before)
caught_by fault m before = fault

-- FreeConnection after the handler, for a message by TCP.
unfoldable pub close_by : ConnectionType → Bool → Msg → Cache → Outcome Sending
unfolding close_if
close_by ob_tcp close m c = caught_by (close_if close m.tcp_socket c) m c
close_by ct_notset close m c = done (popped c)
close_by ib_udp close m c = done (popped c)
close_by ob_udp close m c = done (popped c)
close_by ib_tcp close m c = done (popped c)
close_by internal close m c = done (popped c)

unfoldable pub after_handler : Option ℕ → Cache → Handled → Outcome Sending
unfolding leave close_by
after_handler rec c (returned m r close) = close_by m.connection close m (leave rec r c)
after_handler rec c (thrown m r) = done (stays m (leave rec r c))

unfoldable pub send_by : OutHandler → Msg → Cache → Outcome Sending
unfolding record_by after_handler
send_by handle m c = elim (record_by m.connection m c) [
  | done a ↦ after_handler a.0 a.1 (handle m (pointed a.0 a.1))
  | throws ↦ done (stays m c)
  | fault ↦ fault
]

-- The count of messages that were popped, and what is left.
unfoldable pub outbound_loop : OutHandler → ℕ → List Msg → Cache → Outcome (ℕ × Outbound)
unfolding send_by
outbound_loop handle count [] c = done (count, record { cache = c; messages = [] })
outbound_loop handle count (m ∷ ms) c = do
  s ← send_by handle m c
  elim s [
    | popped c' ↦ outbound_loop handle (suc count) ms c'
    | stays m' c' ↦ done (count, record { cache = c'; messages = m' ∷ ms })
  ]

unfoldable pub process_outbound_tasks : OutHandler → Outbound → Outcome (ℕ × Outbound)
unfolding outbound_loop
process_outbound_tasks handle o = outbound_loop handle 0 o.messages o.cache
