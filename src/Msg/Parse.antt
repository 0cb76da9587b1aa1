-- ===== src/Msg/Parse.antt =====
-- cMsg::Parse, which reads the fields of a message from the text in MsgBuffer. `id` is the id that
-- the provider has for a message without one.
pub mod Read
pub mod Whole
use Prim.Native.String.{String}
use msg_courier.Prelude.{
  ℕ, suc, ◌+◌, ℤ, pos, Bool, true, false, ◌||◌, Option, none, some, List, [], ◌∷◌, ◌==◌,
  if◌then◌else◌, codes, text,
}
use msg_courier.Memory.{Outcome, done, throws, ◌>>=◌, Block, Malloc, read}
use msg_courier.Buffer.{Buffer, count, memory, replace_with}
use msg_courier.Buffer.Search.{strstr, find, binary_find}
use msg_courier.Dict.{order, is_eq}
use msg_courier.HeaderExtract.{HeaderExtract, end_of_header, get_value, parse}
use msg_courier.RoutingTag.{RoutingTag, set_tag}
use msg_courier.Msg.{
  Msg, ConnectionType, ct_notset, ib_udp, ob_udp, ib_tcp, ob_tcp, internal, Format, ReplyAction,
  reply_none, reply_wait, reply_nowait, NotifyAction, notify_yes, notify_no, lowest, low, mid, high,
  highest, Payload, in_buffer, update_msg_connection_type,
}
use msg_courier.Msg.Atoi.{atoi}

-- "\r\n"
abbrev pub crlf : List ℕ
crlf = 13 ∷ 10 ∷ []

abbrev pub is_empty : List ℕ → Bool
is_empty [] = true
is_empty (c ∷ cs) = false

abbrev is_some : Option ℕ → Bool
is_some none = false
is_some (some i) = true

unfoldable pub is_text : String → List ℕ → Bool
unfolding order
is_text word xs = is_eq (order xs (codes word))

-- string::npos != xs.find(word)
unfoldable pub has : String → List ℕ → Bool
unfolding strstr
has word xs = is_some (strstr (codes word) xs 0)

unfoldable pub keep_alive_of : List ℕ → Bool → Bool
unfolding is_text
keep_alive_of xs old = if is_text "close" xs || is_text "Close" xs then false else old

unfoldable pub id_of : String → List ℕ → String
unfolding is_text text
id_of id xs = if is_empty xs || is_text "0" xs then id else text xs

-- A new cRoutingTag
abbrev pub no_tag : RoutingTag
no_tag = record { full_tag = []; tag_name = []; tag_addr = []; tag_port = [] }

unfoldable pub tag_of : List ℕ → String
unfolding set_tag text
tag_of [] = ""
tag_of (c ∷ cs) = text (set_tag (c ∷ cs) no_tag).full_tag

unfoldable pub priority_of : List ℕ → ℕ
unfolding has
priority_of options =
    if has "priority-lowest" options
    then lowest
    else if has "priority-low" options
    then low
    else if has "priority-mid" options
    then mid
    else if has "priority-highest" options
    then highest
    else if has "priority-high" options
    then high
    else lowest

-- Without an option the reply goes by the type of the connection.
unfoldable pub reply_by : ConnectionType → ReplyAction → ReplyAction
reply_by ib_udp old = reply_nowait
reply_by ob_udp old = reply_nowait
reply_by ib_tcp old = reply_wait
reply_by ob_tcp old = reply_wait
reply_by ct_notset old = old
reply_by internal old = old

unfoldable pub reply_of : List ℕ → ConnectionType → ReplyAction → ReplyAction
unfolding has reply_by
reply_of options ct old =
    if has "reply-none" options
    then reply_none
    else if has "reply-wait" options
    then reply_wait
    else if has "reply-nowait" options
    then reply_nowait
    else reply_by ct old

unfoldable pub notify_of : List ℕ → NotifyAction
unfolding has
notify_of options = if has "notify-yes" options then notify_yes else notify_no

unfoldable pub header_fields : String → ConnectionType → Format → HeaderExtract → Msg → Msg
unfolding keep_alive_of id_of tag_of priority_of reply_of notify_of update_msg_connection_type
    get_value
header_fields id ct ms h m = record (update_msg_connection_type ct m) {
  format = ms;
  header_extract = h;
  keep_alive = keep_alive_of (get_value (codes "Connection") h) m.keep_alive;
  msg_id = id_of id (get_value (codes "MsgID") h);
  to = tag_of (get_value (codes "To") h);
  from = tag_of (get_value (codes "From") h);
  subject = text (get_value (codes "Subject") h);
  priority = priority_of (get_value (codes "Options") h);
  reply_action = reply_of (get_value (codes "Options") h) ct m.reply_action;
  notify_action = notify_of (get_value (codes "Options") h);
  crc32 = text (get_value (codes "CRC32") h);
  content_type = text (get_value (codes "Content-Type") h);
}

-- Content-Length, with iEndOfHeader
unfoldable pub content : List ℕ → ℕ → Msg → Outcome Msg
unfolding atoi
content length end m =
    if is_empty length
    then done (record m { content_length = pos 0 })
    else do n ← atoi length; done (record m { content_length = n; payload = in_buffer (end + 4) })

unfoldable pub command_by : Option ℕ → Block → Msg → Outcome Msg
unfolding text
command_by none block m = done m
command_by (some i) block m = do name ← read block 0 i; done (record m { command = text name })

-- From the status line on, where the empty line is found.
unfoldable pub parse_header : String → ConnectionType → Format → ℕ → Msg → Outcome Msg
unfolding command_by header_fields content find parse
parse_header id ct ms end m = do
  (space, b) ← find (32 ∷ []) 0 m.buffer
  m₁ ← command_by space (memory b.block) (record m { header_size = end; buffer = b })
  (h, b') ← parse b m.header_extract
  content (get_value (codes "Content-Length") h) end
      (header_fields id ct ms h (record m₁ { buffer = b' }))

unfoldable pub status_by : ℕ → Block → Msg → Outcome Msg
unfolding text
status_by n block m =
    if n == 0 then done m else do line ← read block 0 n; done (record m { status_line = text line })

-- Without a line end, assign is called with -1 and throws what Parse catches.
unfoldable pub parse_lines : String → ConnectionType → Format → Block → Msg → Outcome Msg
unfolding status_by parse_header binary_find
parse_lines id ct ms block m = do
  first ← binary_find 0 crlf m.buffer
  elim first [
    | none ↦ done m
    | some n ↦ do
      m₁ ← status_by n block m
      end ← binary_find 0 end_of_header m.buffer
      elim end [ none ↦ throws | some e ↦ parse_header id ct ms e m₁ ]
  ]

unfoldable pub parse_data : Option Block → String → ConnectionType → Format → Msg → Outcome Msg
unfolding parse_lines
parse_data none id ct ms m = throws
parse_data (some block) id ct ms m = parse_lines id ct ms block m

unfoldable pub parse_msg : Malloc → String → ConnectionType → Format → Msg → Outcome Msg
unfolding parse_data
parse_msg malloc id ct ms m = do
  (code, raw) ← replace_with malloc m.buffer.block (count m.buffer.tail) m.raw_buffer
  parse_data m.buffer.block id ct ms (record m { raw_buffer = raw })
