-- ===== src/Msg.antt =====
-- imsg.h, msg.h and msg.cpp: cMsg, the fields that the queue, the pool and the connections read.
-- Texts are `String`; sockets and ports are ints that may be -1. An id of cUniqueIDProvider, the
-- time of time(0) and the server's own address are arguments of the functions that ask for them.
pub mod Setters
pub mod Copies
pub mod Atoi
pub mod Parse
use Prim.Native.String.{String}
use msg_courier.Prelude.{ℕ, ◌≡◌, refl, ℤ, pos, minus_one, Bool, true, false, Option, none}
use msg_courier.Buffer.{Buffer, reset}
use msg_courier.HeaderExtract.{HeaderExtract}

pub data ConnectionType : Type 0 where
  ct_notset ib_udp ob_udp ib_tcp ob_tcp internal : ConnectionType

pub data Format : Type 0 where
  format_notset req res notify : Format

pub data ReplyAction : Type 0 where
  reply_none reply_wait reply_nowait : ReplyAction

pub data NotifyAction : Type 0 where
  notify_yes notify_no : NotifyAction

pub data Protocol : Type 0 where
  unknown unknown_tcp unknown_udp http_mcp mcp http_get http_post : Protocol

pub data State : Type 0 where
  inactive pending inuse undelivered delivered processed markforreuse : State

-- MSG_PRIORITY
abbrev pub lowest : ℕ
lowest = 0

abbrev pub low : ℕ
low = 64

abbrev pub mid : ℕ
mid = 128

abbrev pub high : ℕ
high = 192

abbrev pub highest : ℕ
highest = 255

-- CMSG_MAX_RETRY_DELAY
abbrev pub first_retry_delay : ℕ
first_retry_delay = 1

-- m_pPayload: NULL, an offset in MsgBuffer, or the address of other memory.
pub data Payload : Type 0 where
  nowhere : Payload
  in_buffer : ℕ → Payload
  elsewhere : ℕ → Payload

pub record Msg : Type 0 where
  pub tcp_socket : ℤ
  pub udp_socket : ℤ
  pub retry_count : ℕ
  pub retry_delay : ℕ
  pub msg_id : String
  pub connection : ConnectionType
  pub protocol : Protocol
  pub format : Format
  pub response_code : ℕ
  pub state : State
  pub command : String
  pub to : String
  pub from : String
  pub subject : String
  pub options : String
  pub reply_action : ReplyAction
  pub notify_action : NotifyAction
  pub status_line : String
  pub content_type : String
  pub content_length : ℤ
  pub buffer : Buffer
  pub raw_buffer : Buffer
  pub payload : Payload
  pub header_size : ℕ
  pub crc32 : String
  pub source_ip : String
  pub source_port : ℤ
  pub priority : ℕ
  pub arrival_port : ℕ
  pub in_use_ts : ℕ
  pub last_retry_ts : ℕ
  pub cloned : Bool
  pub service : Option ℕ
  pub keep_alive : Bool
  pub header_extract : HeaderExtract

-- `id` comes from the id provider and `now` from time(0). The profiler is not modelled.
pub reset_msg : String → ℕ → Msg → Msg
reset_msg id now m = record {
  tcp_socket = minus_one;
  udp_socket = minus_one;
  retry_count = 0;
  retry_delay = first_retry_delay;
  msg_id = id;
  connection = ct_notset;
  protocol = unknown;
  format = format_notset;
  response_code = 0;
  state = inactive;
  command = "";
  to = "";
  from = "";
  subject = "";
  options = "";
  reply_action = reply_none;
  notify_action = notify_no;
  status_line = "";
  content_type = "";
  content_length = pos 0;
  buffer = reset m.buffer;
  raw_buffer = reset m.raw_buffer;
  payload = nowhere;
  header_size = 0;
  crc32 = "";
  source_ip = "";
  source_port = minus_one;
  priority = mid;
  arrival_port = 0;
  in_use_ts = now;
  last_retry_ts = 0;
  cloned = false;
  service = none;
  keep_alive = true;
  header_extract = m.header_extract;
}

-- The four fields that an internal message has fixed.
unfoldable pub make_internal : Msg → Msg
make_internal m = record m { priority = high; protocol = mcp; to = ""; from = "" }

unfoldable pub update_msg_connection_type : ConnectionType → Msg → Msg
unfolding make_internal
update_msg_connection_type internal m = make_internal (record m { connection = internal })
update_msg_connection_type ct m = record m { connection = ct }

pub set_connection_type : ConnectionType → Msg → Msg
unfolding update_msg_connection_type make_internal
set_connection_type ct m =
    let m' = update_msg_connection_type ct m in
    elim ct [
      | internal ↦ make_internal (record m' { connection = internal })
      | other ↦ record m' { connection = other }
    ]

-- CloseIfCloned has no code left in it.
unfoldable pub mark_processed : Msg → Msg
mark_processed m = record m { state = delivered }

pub mark_processed_lem : (m : Msg) → (mark_processed m).state ≡ delivered
unfolding mark_processed
mark_processed_lem m = refl

-- `sender` is the text name@address:port of this server and the arrival port.
unfoldable pub dispatch_msg : String → Msg → Msg
dispatch_msg sender m = elim m.connection [
  | ct_notset ↦ record m { connection = internal; state = pending }
  | ob_udp ↦ record m { from = sender; state = pending }
  | _ ↦ record m { state = pending }
]

pub close_socket : Msg → Msg
close_socket m = record m { tcp_socket = minus_one }
