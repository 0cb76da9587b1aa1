-- ===== src/MsgQueue/Route/Delivery.antt =====
-- What becomes of a message that leaves the priority queue.
use Prim.Native.String.{String}
use msg_courier.Prelude.{
  ℕ, ◌≡◌, ◌≢◌, refl, ◌∙◌, ap, Bool, true, false, List, [], ◌∷◌, ◌++◌, Option, none, some, arith,
  All, ◌⊎◌, inl, inr,
}
use msg_courier.Memory.{Returns, Returns-bind, Returns-map}
use msg_courier.Msg.{
  Msg, ConnectionType, ct_notset, ib_udp, ob_udp, ib_tcp, ob_tcp, internal, NotifyAction,
  notify_yes, notify_no, undelivered, delivered, mark_processed, ReplyAction, reply_none,
  reply_wait, reply_nowait,
}
use msg_courier.Msg.Setters.{set_notify_action}
use msg_courier.Msg.Copies.{post_notify_message}
use msg_courier.Factory.{get_command_handler}
use msg_courier.Rules.Search.{HasRules, first_route, search-first_route}
use msg_courier.MsgQueue.Route.{
  Event, posts, hands, sends, leaves, Router, on_process, process_internal_message,
  process_outbound_message, process_inbound_message, process_priority_queue, process_by, routed,
  routed_by, matched, notified, remote, wanted, internal_to, outbound_by,
}

abbrev IsInbound : Msg → Type 0
IsInbound m = (m.connection ≡ ib_udp) ⊎ (m.connection ≡ ib_tcp)

abbrev IsOutbound : Msg → Type 0
IsOutbound m = (m.connection ≡ ob_udp) ⊎ (m.connection ≡ ob_tcp)

module _ {Handler : Type 0} where
  -- The notification that a message asks for.
  unfoldable pub notices : Router Handler → NotifyAction → Msg → List (Event Handler)
  notices r notify_yes m = posts (post_notify_message r.sender m r.spare) ∷ []
  notices r notify_no m = []

  -- One handler of the factory takes the message, under its id, and is not asked for a notification.
  pub record Handed (r : Router Handler) (m : Msg) (before events : List (Event Handler))
      : Type 0 where
    pub handler : Handler
    pub message : Msg
    pub all : events ≡ before ++ hands handler message ∷ []
    pub name : String
    pub registered : get_command_handler name r.handlers ≡ some handler
    pub same_id : message.msg_id ≡ m.msg_id
    pub quiet : message.notify_action ≡ notify_no

  module _ (r : Router Handler) (mc : Handler)
      (known : get_command_handler "MC" r.handlers ≡ some mc) where
    to_mc :
        (m m' : Msg)
        → m'.msg_id ≡ m.msg_id
        → m'.notify_action ≡ notify_no
        → Returns (Handed r m []) (on_process (get_command_handler "MC" r.handlers) m')
    unfolding on_process
    to_mc m m' same quiet = rw known (record {
      handler = mc;
      message = m';
      all = refl;
      name = "MC";
      registered = known;
      same_id = same;
      quiet = quiet;
    })

    remote_lem :
        (o : Option ℕ) (m : Msg)
        → ((remote o m).msg_id ≡ m.msg_id) × ((remote o m).notify_action ≡ m.notify_action)
    unfolding remote
    remote_lem none m = (refl, refl)
    remote_lem (some s) m = (refl, refl)

    matched-Handed :
        (m : Msg) (name : String) (o : Option Handler)
        → get_command_handler name r.handlers ≡ o
        → m.notify_action ≡ notify_no
        → Returns (Handed r m []) (matched r o m)
    unfolding matched
    matched-Handed m name (some h) e quiet = record {
      handler = h;
      message = m;
      all = refl;
      name = name;
      registered = e;
      same_id = refl;
      quiet = quiet;
    }
    matched-Handed m name none e quiet =
        let kept = remote_lem (r.query m.command) m in
        to_mc m (remote (r.query m.command) m) kept.0 (kept.1 ∙ quiet)

    routed_by-Handed :
        All HasRules r.sets
        → (b : Bool) (m : Msg) → m.notify_action ≡ notify_no
        → Returns (Handed r m []) (routed_by r b m)
    unfolding routed_by
    routed_by-Handed h true m quiet = to_mc m m refl quiet
    routed_by-Handed h false m quiet =
        rw (search-first_route (r.tests m) r.sets h)
          (matched-Handed m (wanted (first_route (r.tests m) r.sets) m) _ refl quiet)

    -- After the notices come the handler's events.
    before_lem :
        (start : List (Event Handler)) (m m' : Msg)
        → m'.msg_id ≡ m.msg_id
        → (events : List (Event Handler)) → Handed r m' [] events
        → Handed r m start (start ++ events)
    before_lem start m m' same events h = record {
      handler = h.handler;
      message = h.message;
      all = ap (λ es. start ++ es) h.all;
      name = h.name;
      registered = h.registered;
      same_id = h.same_id ∙ same;
      quiet = h.quiet;
    }

    notified-Handed :
        All HasRules r.sets
        → (a : NotifyAction) (m : Msg) → m.notify_action ≡ a
        → Returns
            (λ events. Handed r m (notices r a m) ((notified r a m).0 ++ events))
            (routed r (notified r a m).1)
    unfolding notified notices routed
    notified-Handed h notify_yes m e =
        Returns-map _ _ _ (routed_by-Handed h _ (set_notify_action notify_no m) refl)
          (before_lem _ m (set_notify_action notify_no m) refl)
    notified-Handed h notify_no m e =
        Returns-map _ _ _ (routed_by-Handed h _ m e) (before_lem [] m m refl)

    -- While the rule sets have rules and a handler is registered for MC, an inbound message goes
    -- to one handler of the factory, and nowhere else. Before that a notification is posted if the
    -- message asks for one, and the handler sees the message under its id and without that flag.
    pub process_inbound_message-Handed :
        All HasRules r.sets
        → (m : Msg)
        → Returns (Handed r m (notices r m.notify_action m)) (process_inbound_message r m)
    unfolding process_inbound_message
    process_inbound_message-Handed h m =
        Returns-bind
          (λ events.
            Handed r m (notices r m.notify_action m) ((notified r m.notify_action m).0 ++ events))
          (Handed r m (notices r m.notify_action m)) (routed r (notified r m.notify_action m).1) _
          (notified-Handed h m.notify_action m refl) (λ events handed. handed)

  -- What becomes of a message, by the type of its connection: an inbound one goes to a handler
  -- behind the notification it asks for, an internal one to the handler of its command or it is
  -- undelivered, and an outbound one is sent, or delivered where no reply is wanted.
  pub data Ends (r : Router Handler) (m : Msg) : List (Event Handler) → Type 0 where
    handed :
        (events : List (Event Handler))
        → IsInbound m
        → Handed r m (notices r m.notify_action m) events
        → Ends r m events
    served :
        (h : Handler)
        → m.connection ≡ internal
        → get_command_handler m.command r.handlers ≡ some h
        → Ends r m (hands h m ∷ [])
    lost :
        m.connection ≡ internal
        → get_command_handler m.command r.handlers ≡ none
        → Ends r m (leaves (record m { state = undelivered }) ∷ [])
    sent : IsOutbound m → m.reply_action ≢ reply_none → Ends r m (sends m ∷ [])
    finished :
        IsOutbound m
        → m.reply_action ≡ reply_none
        → Ends r m (leaves (record m { state = delivered }) ∷ [])

  internal-Ends :
      (r : Router Handler) (m : Msg) (o : Option Handler)
      → m.connection ≡ internal
      → get_command_handler m.command r.handlers ≡ o
      → Ends r m (internal_to o m)
  unfolding internal_to
  internal-Ends r m none kind e = lost kind e
  internal-Ends r m (some h) kind e = served h kind e

  outbound-Ends :
      (r : Router Handler) (m : Msg) (a : ReplyAction)
      → IsOutbound m
      → m.reply_action ≡ a
      → Ends r m (outbound_by a m)
  unfolding outbound_by mark_processed
  outbound-Ends r m reply_none kind e = finished kind e
  outbound-Ends r m reply_wait kind e = sent kind (λ z. ground (arith, e, z))
  outbound-Ends r m reply_nowait kind e = sent kind (λ z. ground (arith, e, z))

  module _ (r : Router Handler) (mc : Handler)
      (known : get_command_handler "MC" r.handlers ≡ some mc) (h : All HasRules r.sets)
      (m : Msg) where
    inbound-Ends : IsInbound m → Returns (Ends r m) (process_inbound_message r m)
    inbound-Ends kind =
        Returns-map _ _ _ (process_inbound_message-Handed r mc known h m)
          (λ events to. handed events kind to)

    by-Ends :
        (ct : ConnectionType)
        → m.connection ≡ ct
        → m.connection ≢ ct_notset
        → Returns (Ends r m) (process_by r ct m)
    unfolding process_by process_internal_message process_outbound_message
    by-Ends ct_notset e set = ground (arith, set e)
    by-Ends internal e set = internal-Ends r m (get_command_handler m.command r.handlers) e refl
    by-Ends ob_udp e set = outbound-Ends r m m.reply_action (inl e) refl
    by-Ends ob_tcp e set = outbound-Ends r m m.reply_action (inr e) refl
    by-Ends ib_udp e set = inbound-Ends (inl e)
    by-Ends ib_tcp e set = inbound-Ends (inr e)

  -- What becomes of a message with a connection type when it leaves the priority queue, while the
  -- rule sets have rules and a handler is registered for MC, depends on that type. An inbound one
  -- goes to one handler of the factory behind the notification that it asks for, and nowhere else.
  -- An internal one goes to the handler of its command, or is left undelivered where there is
  -- none. An outbound one is sent, or left delivered where it wants no reply. Nothing else
  -- happens.
  pub process_priority_queue-Ends :
      (r : Router Handler) (mc : Handler)
      → get_command_handler "MC" r.handlers ≡ some mc
      → All HasRules r.sets
      → (m : Msg) → m.connection ≢ ct_notset
      → Returns (Ends r m) (process_priority_queue r m)
  unfolding process_priority_queue
  process_priority_queue-Ends r mc known h m set = by-Ends r mc known h m m.connection refl set
