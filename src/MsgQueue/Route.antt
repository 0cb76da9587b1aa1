-- ===== src/MsgQueue/Route.antt =====
-- ProcessPriorityQueue of msgqueue.cpp and the functions that it calls for a message: what is done
-- with the message, as the calls that leave the queue. The sysmetrics and the log are not modelled.
-- The tests of the rules and the service engine's QueryServiceFirst are parameters.
pub mod Delivery
use Prim.Native.String.{String}
use text.Mathlib.Text.{◌==◌, starts_with}
use msg_courier.Prelude.{
  ℕ, Bool, true, false, List, [], ◌∷◌, ◌++◌, Option, none, some, if◌then◌else◌,
}
use msg_courier.Memory.{Outcome, done, throws, fault, ◌>>=◌}
use msg_courier.Msg.{
  Msg, ConnectionType, ct_notset, ib_udp, ob_udp, ib_tcp, ob_tcp, internal, undelivered,
  NotifyAction, notify_yes, notify_no, ReplyAction, reply_none, mark_processed,
}
use msg_courier.Msg.Setters.{set_msg_state, set_notify_action, set_command, set_remote_handler}
use msg_courier.Msg.Copies.{post_notify_message}
use msg_courier.Factory.{get_command_handler}
use msg_courier.Rules.{RuleSet, Tests, search}

-- PostNotifyMessage's new message; OnProcess of a handler; SendMsg of the connection queue; and a
-- message that the queue itself leaves in its last state.
pub data Event (Handler : Type 0) : Type 0 where
  posts : Msg → Event Handler
  hands : Handler → Msg → Event Handler
  sends : Msg → Event Handler
  leaves : Msg → Event Handler

-- What the queue knows: m_pCommandHandlerFactory, m_pRouterRulesEngine and m_pServiceEngine, with
-- this server's address and the message that the pool has ready for a notification.
pub record Router (Handler : Type 0) : Type 0 where
  pub handlers : List (String × Handler)
  pub sets : List RuleSet
  pub tests : Msg → Tests
  pub query : String → Option ℕ
  pub sender : String
  pub spare : Msg

-- The command that is looked up: Match, unless it is empty.
wanted : Option String → Msg → String
wanted none m = m.command
wanted (some route) m = if route == "" then m.command else route

-- No handler here: a service elsewhere takes the message, or it is an error.
remote : Option ℕ → Msg → Msg
remote (some service) m = set_remote_handler (some service) m
remote none m = set_command "MC.ERROR" m

module _ {Handler : Type 0} where
  -- pHandler->OnProcess(pIMsg), where pHandler may be NULL.
  on_process : Option Handler → Msg → Outcome (List (Event Handler))
  on_process none m = fault
  on_process (some h) m = done (hands h m ∷ [])

  internal_to : Option Handler → Msg → List (Event Handler)
  internal_to (some h) m = hands h m ∷ []
  internal_to none m = leaves (set_msg_state undelivered m) ∷ []

  pub process_internal_message : Router Handler → Msg → List (Event Handler)
  unfolding internal_to
  process_internal_message r m = internal_to (get_command_handler m.command r.handlers) m

  outbound_by : ReplyAction → Msg → List (Event Handler)
  outbound_by reply_none m = leaves (mark_processed m) ∷ []
  outbound_by _ m = sends m ∷ []

  pub process_outbound_message : Msg → List (Event Handler)
  unfolding outbound_by
  process_outbound_message m = outbound_by m.reply_action m

  -- The notification, and the message without the flag for it.
  notified : Router Handler → NotifyAction → Msg → List (Event Handler) × Msg
  notified r notify_yes m =
      (posts (post_notify_message r.sender m r.spare) ∷ [], set_notify_action notify_no m)
  notified r notify_no m = ([], m)

  matched : Router Handler → Option Handler → Msg → Outcome (List (Event Handler))
  unfolding on_process remote
  matched r (some h) m = done (hands h m ∷ [])
  matched r none m = on_process (get_command_handler "MC" r.handlers) (remote (r.query m.command) m)

  -- By whether the command begins with MCP/.
  routed_by : Router Handler → Bool → Msg → Outcome (List (Event Handler))
  unfolding matched on_process wanted
  routed_by r true m = on_process (get_command_handler "MC" r.handlers) m
  routed_by r false m = do
    found ← search (r.tests m) r.sets
    matched r (get_command_handler (wanted found m) r.handlers) m

  routed : Router Handler → Msg → Outcome (List (Event Handler))
  unfolding routed_by
  routed r m = routed_by r (starts_with m.command "MCP/") m

  pub process_inbound_message : Router Handler → Msg → Outcome (List (Event Handler))
  unfolding notified routed
  process_inbound_message r m =
      let (notices, m') = notified r m.notify_action m in
      do events ← routed r m'; done (notices ++ events)

  process_by : Router Handler → ConnectionType → Msg → Outcome (List (Event Handler))
  process_by r internal m = done (process_internal_message r m)
  process_by r ob_udp m = done (process_outbound_message m)
  process_by r ob_tcp m = done (process_outbound_message m)
  process_by r ib_udp m = process_inbound_message r m
  process_by r ib_tcp m = process_inbound_message r m
  process_by r ct_notset m = throws

  -- ProcessPriorityQueue, after the top has been taken.
  pub process_priority_queue : Router Handler → Msg → Outcome (List (Event Handler))
  unfolding process_by
  process_priority_queue r m = process_by r m.connection m
