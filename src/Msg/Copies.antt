-- ===== src/Msg/Copies.antt =====
-- Messages made from messages: CreateMessageReply, PostNotifyMessage and CreateInternalMessage of
-- msgqueue.cpp, on the message that the pool hands out for the purpose.
use Prim.Native.String.{String}
use msg_courier.Prelude.{◌+◌, ◌≡◌, ◌⊎◌, inl, inr, Bool, true, false, arith, if◌then◌else◌}
use msg_courier.Msg.{
  Msg, ConnectionType, ib_udp, ob_udp, ib_tcp, ob_tcp, internal, res, notify, reply_none,
  reply_nowait, notify_yes, notify_no, mcp, highest, set_connection_type, dispatch_msg,
}
use msg_courier.Msg.Setters.{
  set_tcp_socket_handle, set_udp_socket_handle, set_msg_id, set_protocol_type, set_format,
  set_command, set_to, set_reply_action, set_notify_action, set_source_ip, set_source_port,
  set_msg_priority, set_arrival_port, set_keep_alive, set_cloned,
}

-- The first ladder: inbound becomes outbound, and other types set nothing.
reply_connection : ConnectionType → Msg → Msg
reply_connection internal m = set_connection_type internal m
reply_connection ib_udp m = set_connection_type ob_udp m
reply_connection ib_tcp m = set_connection_type ob_tcp m
reply_connection _ m = m

pub is_internal : ConnectionType → Bool
is_internal internal = true
is_internal _ = false

-- The last ladder: an internal reply is not answered again.
reply_actions : Msg → Msg → Msg
unfolding is_internal
reply_actions to_this m =
    if is_internal to_this.connection
    then set_notify_action notify_no (set_reply_action reply_none m)
    else set_source_port to_this.source_port (
        set_source_ip to_this.source_ip (
          set_udp_socket_handle to_this.udp_socket
            (set_notify_action to_this.notify_action (set_reply_action to_this.reply_action m))))

reply_command : Msg → Msg → Msg
unfolding is_internal
reply_command to_this m = if is_internal to_this.connection then set_command to_this.from m else m

-- The reply to a message, and the message marked as cloned. The copy of the profiler is not
-- modelled.
pub create_message_reply : Msg → Msg → Msg × Msg
unfolding reply_connection reply_actions reply_command
create_message_reply to_this new =
    let m₁ = set_keep_alive to_this.keep_alive (set_tcp_socket_handle to_this.tcp_socket new) in
    let m₂ = reply_command to_this (reply_connection to_this.connection m₁) in
    let m₃ = set_to to_this.from (set_format res (set_msg_id to_this.msg_id m₂)) in
    let m₄ = reply_actions to_this (set_msg_priority to_this.priority m₃) in
    let m₅ = set_arrival_port to_this.arrival_port (set_protocol_type to_this.protocol m₄) in
    (m₅, set_cloned to_this)

notify_connection : ConnectionType → Msg → Msg
notify_connection ib_udp m = set_connection_type ob_udp m
notify_connection ib_tcp m = set_connection_type ob_tcp m
notify_connection _ m = m

pub post_notify_message : String → Msg → Msg → Msg
unfolding notify_connection
post_notify_message sender based_on new =
    let m₁ =
      notify_connection based_on.connection (set_tcp_socket_handle based_on.tcp_socket new) in
    let m₂ = set_to based_on.from (set_format notify (set_msg_id based_on.msg_id m₁)) in
    let m₃ = set_reply_action reply_nowait (set_msg_priority (highest + 1000) m₂) in
    dispatch_msg sender (set_notify_action notify_yes (set_protocol_type mcp m₃))

pub create_internal_message : Msg → Msg
create_internal_message new =
    set_notify_action notify_no (set_reply_action reply_none (set_connection_type internal new))

-- The way back of a message that came from outside.
pub back : ConnectionType → ConnectionType
back ib_udp = ob_udp
back ib_tcp = ob_tcp
back ct = ct

-- What the reply to a message that came by UDP or TCP must keep for it to reach the sender.
pub record Answers (request reply : Msg) : Type 0 where
  pub same_id : reply.msg_id ≡ request.msg_id
  pub is_response : reply.format ≡ res
  pub to_sender : reply.to ≡ request.from
  pub way_back : reply.connection ≡ back request.connection
  pub same_tcp : reply.tcp_socket ≡ request.tcp_socket
  pub same_udp : reply.udp_socket ≡ request.udp_socket
  pub same_ip : reply.source_ip ≡ request.source_ip
  pub same_port : reply.source_port ≡ request.source_port
  pub same_priority : reply.priority ≡ request.priority
  pub same_protocol : reply.protocol ≡ request.protocol
  pub same_reply_action : reply.reply_action ≡ request.reply_action

-- The reply to a message that came by UDP or TCP carries its id, goes back the way it came, to its
-- sender, and has its sockets, address, priority, protocol and reply action.
pub create_message_reply-Answers :
    (request new : Msg)
    → (request.connection ≡ ib_udp) ⊎ (request.connection ≡ ib_tcp)
    → Answers request (create_message_reply request new).0
unfolding create_message_reply set_connection_type back
create_message_reply-Answers request new (inl e) = ground arith
create_message_reply-Answers request new (inr e) = ground arith
