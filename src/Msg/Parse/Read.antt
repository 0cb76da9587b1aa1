-- ===== src/Msg/Parse/Read.antt =====
-- What Parse reads from a text that is a status line, fields, an empty line and a payload.
use Prim.Native.String.{String}
use msg_courier.Prelude.{
  ℕ, suc, ◌+◌, ◌≡◌, refl, sym, ap, ◌∙◌, subst, ℤ, Bool, false, List, [], ◌∷◌, ◌++◌, drop, length,
  length-append, drop-append_left, codes, text,
}
use msg_courier.Memory.{done, Returns}
use msg_courier.Buffer.{Buffer}
use msg_courier.Buffer.Append.{Holds}
use msg_courier.HeaderExtract.{HeaderExtract, end_of_header, get_value}
use msg_courier.HeaderExtract.Lines.{Field, Lacks}
use msg_courier.HeaderExtract.Header.{head, message}
use msg_courier.HeaderExtract.Fields.{IsHeader, IsRead, last}
use msg_courier.Msg.{
  Msg, ConnectionType, ct_notset, ib_udp, ob_udp, ib_tcp, ob_tcp, internal, Format, ReplyAction,
  in_buffer, update_msg_connection_type,
}
use msg_courier.Msg.Atoi.{atoi}
use msg_courier.Msg.Parse.{
  is_empty, keep_alive_of, id_of, tag_of, priority_of, reply_of, notify_of, header_fields,
  content as read_content,
}

-- The fields that a new type of the connection leaves alone, and the type.
abbrev Typed : ConnectionType → Msg → Msg → Type 0
Typed ct m r =
    (r.connection ≡ ct)
    × (r.status_line ≡ m.status_line)
    × (r.command ≡ m.command)
    × (r.header_size ≡ m.header_size)
    × (r.buffer ≡ m.buffer)
    × (r.raw_buffer ≡ m.raw_buffer)

typed : (ct : ConnectionType) (m : Msg) → Typed ct m (update_msg_connection_type ct m)
unfolding update_msg_connection_type
typed ct_notset m = (refl, refl, refl, refl, refl, refl)
typed ib_udp m = (refl, refl, refl, refl, refl, refl)
typed ob_udp m = (refl, refl, refl, refl, refl, refl)
typed ib_tcp m = (refl, refl, refl, refl, refl, refl)
typed ob_tcp m = (refl, refl, refl, refl, refl, refl)
typed internal m = (refl, refl, refl, refl, refl, refl)

-- The text of a message that can be parsed, with the first word of its status line.
pub record Text : Type 0 where
  pub command : List ℕ
  pub rest : List ℕ
  pub fields : List Field
  pub payload : List ℕ

abbrev pub status : Text → List ℕ
status t = t.command ++ (32 ∷ t.rest)

abbrev pub written : Text → List ℕ
written t = message (status t) t.fields t.payload

abbrev pub field : String → Text → List ℕ
field name t = last (codes name) t.fields []

-- The header can be read, no space stands in the command, and Content-Length is a number.
pub record IsText (t : Text) (n : ℤ) : Type 0 where
  pub header : IsHeader (status t) t.fields
  pub one_word : Lacks 32 t.command
  pub sized : is_empty (field "Content-Length" t) ≡ false
  pub number : atoi (field "Content-Length" t) ≡ done n

-- What Parse leaves of a message that had the given keep-alive and reply action.
pub record IsParsed (id : String) (ct : ConnectionType) (ms : Format) (t : Text) (n : ℤ)
    (keep : Bool) (reply : ReplyAction) (r : Msg) : Type 0 where
  pub buffers : Holds r.buffer (written t) × Holds r.raw_buffer (written t)
  pub kind : (r.connection ≡ ct) × (r.format ≡ ms)
  pub status_line : r.status_line ≡ text (status t)
  pub command : r.command ≡ text t.command
  pub msg_id : r.msg_id ≡ id_of id (field "MsgID" t)
  pub keep_alive : r.keep_alive ≡ keep_alive_of (field "Connection" t) keep
  pub to : r.to ≡ tag_of (field "To" t)
  pub from : r.from ≡ tag_of (field "From" t)
  pub subject : r.subject ≡ text (field "Subject" t)
  pub priority : r.priority ≡ priority_of (field "Options" t)
  pub reply_action : r.reply_action ≡ reply_of (field "Options" t) ct reply
  pub notify_action : r.notify_action ≡ notify_of (field "Options" t)
  pub crc32 : r.crc32 ≡ text (field "CRC32" t)
  pub content_type : r.content_type ≡ text (field "Content-Type" t)
  pub content_length : r.content_length ≡ n
  pub values : (name : List ℕ) → get_value name r.header_extract ≡ last name t.fields []
  pub header_size : drop r.header_size (written t) ≡ end_of_header ++ t.payload
  pub payload : r.payload ≡ in_buffer (r.header_size + 4)

module _ (t : Text) (n : ℤ) (w : IsText t n) (id : String) (ct : ConnectionType) (ms : Format) where
  abbrev pub xs : List ℕ
  xs = written t

  abbrev pub end : ℕ
  end = length (head (status t) t.fields)

  pub lengths : length xs ≡ end + suc (suc (suc (suc (length t.payload))))
  lengths = length-append (head (status t) t.fields) (end_of_header ++ t.payload)

  -- The message with its status line and its command, before the fields are read.
  abbrev pub named : Msg → Buffer → Msg
  named m b = record m { header_size = end; buffer = b; command = text t.command }

  pub header_fields-IsParsed :
      (m : Msg) (b : Buffer) (h : HeaderExtract)
      → Holds m.raw_buffer xs
      → m.status_line ≡ text (status t)
      → IsRead xs t.fields (h, b)
      → Returns (IsParsed id ct ms t n m.keep_alive m.reply_action) (
          read_content
            (get_value (codes "Content-Length") h)
            end
            (header_fields id ct ms h (named m b)))
  unfolding read_content header_fields
  header_fields-IsParsed m b h raw line r =
      let v = λ (name : String). r.values (codes name) in
      let u = typed ct (named m b) in
      rw (v "Content-Length", w.sized, w.number)
        (record {
          buffers =
              (subst (λ c. Holds c xs) (sym u.4) r.holds, subst (λ c. Holds c xs) (sym u.5) raw);
          kind = (u.0, refl);
          status_line = u.1 ∙ line;
          command = u.2;
          msg_id = ap (id_of id) (v "MsgID");
          keep_alive = ap (λ ys. keep_alive_of ys m.keep_alive) (v "Connection");
          to = ap tag_of (v "To");
          from = ap tag_of (v "From");
          subject = ap text (v "Subject");
          priority = ap priority_of (v "Options");
          reply_action = ap (λ ys. reply_of ys ct m.reply_action) (v "Options");
          notify_action = ap notify_of (v "Options");
          crc32 = ap text (v "CRC32");
          content_type = ap text (v "Content-Type");
          content_length = refl;
          values = r.values;
          header_size =
              ap (λ k. drop k xs) u.3
              ∙ drop-append_left end (head (status t) t.fields) (end_of_header ++ t.payload) refl;
          payload = ap (λ k. in_buffer (k + 4)) (sym u.3);
        })
