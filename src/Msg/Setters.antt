-- ===== src/Msg/Setters.antt =====
-- The setters of msg.cpp, each of which holds the message's lock for one assignment.
use Prim.Native.String.{String}
use msg_courier.Prelude.{ℕ, ℤ, pos, Bool, true, Option}
use msg_courier.Memory.{Outcome, done, ◌>>=◌, Block, Malloc}
use msg_courier.Buffer.{count, replace_with}
use msg_courier.Msg.{Msg, State, Format, Protocol, ReplyAction, NotifyAction, Payload, in_buffer}

abbrev pub set_tcp_socket_handle : ℤ → Msg → Msg
set_tcp_socket_handle new m = record m { tcp_socket = new }

abbrev pub set_udp_socket_handle : ℤ → Msg → Msg
set_udp_socket_handle new m = record m { udp_socket = new }

abbrev pub set_msg_id : String → Msg → Msg
set_msg_id new m = record m { msg_id = new }

abbrev pub set_msg_state : State → Msg → Msg
set_msg_state new m = record m { state = new }

abbrev pub set_send_retry_delay : ℕ → Msg → Msg
set_send_retry_delay new m = record m { retry_delay = new }

abbrev pub set_send_retry_count : ℕ → Msg → Msg
set_send_retry_count new m = record m { retry_count = new }

abbrev pub set_protocol_type : Protocol → Msg → Msg
set_protocol_type new m = record m { protocol = new }

abbrev pub set_format : Format → Msg → Msg
set_format new m = record m { format = new }

abbrev pub set_response_code : ℕ → Msg → Msg
set_response_code new m = record m { response_code = new }

abbrev pub set_command : String → Msg → Msg
set_command new m = record m { command = new }

abbrev pub set_to : String → Msg → Msg
set_to new m = record m { to = new }

abbrev pub set_from : String → Msg → Msg
set_from new m = record m { from = new }

abbrev pub set_subject : String → Msg → Msg
set_subject new m = record m { subject = new }

abbrev pub set_options : String → Msg → Msg
set_options new m = record m { options = new }

abbrev pub set_reply_action : ReplyAction → Msg → Msg
set_reply_action new m = record m { reply_action = new }

abbrev pub set_notify_action : NotifyAction → Msg → Msg
set_notify_action new m = record m { notify_action = new }

abbrev pub set_status_line : String → Msg → Msg
set_status_line new m = record m { status_line = new }

abbrev pub set_content_type : String → Msg → Msg
set_content_type new m = record m { content_type = new }

abbrev pub set_content_length : ℤ → Msg → Msg
set_content_length new m = record m { content_length = new }

abbrev pub set_content_payload_pointer : Payload → Msg → Msg
set_content_payload_pointer new m = record m { payload = new }

abbrev pub set_source_ip : String → Msg → Msg
set_source_ip new m = record m { source_ip = new }

abbrev pub set_source_port : ℤ → Msg → Msg
set_source_port new m = record m { source_port = new }

abbrev pub set_msg_priority : ℕ → Msg → Msg
set_msg_priority new m = record m { priority = new }

abbrev pub set_arrival_port : ℕ → Msg → Msg
set_arrival_port new m = record m { arrival_port = new }

abbrev pub set_msg_last_retry_ts : ℕ → Msg → Msg
set_msg_last_retry_ts new m = record m { last_retry_ts = new }

abbrev pub set_remote_handler : Option ℕ → Msg → Msg
set_remote_handler new m = record m { service = new }

abbrev pub set_keep_alive : Bool → Msg → Msg
set_keep_alive new m = record m { keep_alive = new }

abbrev pub set_cloned : Msg → Msg
set_cloned m = record m { cloned = true }

abbrev pub set_crc32 : Msg → Msg
set_crc32 m = record m { crc32 = "0" }

-- The payload is copied into MsgBuffer.
pub set_content_payload : Malloc → Option Block → ℕ → Msg → Outcome Msg
set_content_payload malloc p n m = do
  (code, buffer') ← replace_with malloc p (count n) m.buffer
  done (record m { buffer = buffer'; payload = in_buffer 0; content_length = pos n })
