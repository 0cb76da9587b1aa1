-- ===== src/Examples/Parsing.antt =====
-- The text `IM.SEND MCP/2\r\nTo: b@c:1\r\nContent-Length: 2\r\n\r\nhi`, for headerextract.cpp and
-- cMsg::Parse of msg.cpp.
use msg_courier.Prelude.{
  refl, pos, true, some, [], ◌∷◌, ◌++◌, arith, replicate, length-replicate, codes,
}
use msg_courier.Memory.{Malloc, Allocates, Returns}
use msg_courier.Buffer.{Buffer}
use msg_courier.Buffer.Append.{Holds}
use msg_courier.HeaderExtract.{parse}
use msg_courier.HeaderExtract.Lines.{render}
use msg_courier.Dict.{order}
use msg_courier.HeaderExtract.Fields.{IsHeader, IsRead, parse-IsRead}
use msg_courier.Msg.{Msg, inuse, ib_tcp, req, reply_none}
use msg_courier.Msg.Atoi.{atoi}
use msg_courier.Msg.Parse.{parse_msg}
use msg_courier.Msg.Parse.Read.{Text, IsText, IsParsed, status, written}
use msg_courier.Msg.Parse.Whole.{parse_msg-IsParsed}
use msg_courier.Examples.Messages

abbrev pub room : Malloc
room n = some (replicate n 0)

pub room_lem : Allocates room
room_lem n = (replicate n 0, refl, length-replicate n 0)

abbrev send : Text
send = record {
  command = codes "IM.SEND";
  rest = codes "MCP/2";
  fields =
      record { name = codes "To"; value = codes "b@c:1" }
      ∷ (record { name = codes "Content-Length"; value = codes "2" } ∷ []);
  payload = codes "hi";
}

abbrev wire : Buffer
wire = record {
  block = some (written send ++ 0 ∷ []);
  size = 50;
  tail = 49;
  min_alloc = 32;
  mid_alloc = 256;
}

wire-Holds : Holds wire (written send)
unfolding render
wire-Holds = record { valid = record { held = (omega arith, omega arith) }; stands_for = refl }

send-IsHeader : IsHeader (status send) send.fields
unfolding render
send-IsHeader = record {
  one_line = ground arith;
  colon_free = ground arith;
  nul_free = ground arith;
  fields = (
    record { colon_free = ground arith; one_line = ground arith; nul_free = ground arith },
    (record { colon_free = ground arith; one_line = ground arith; nul_free = ground arith }, tt),
  );
  long = omega arith;
}

send-IsText : IsText send (pos 2)
unfolding atoi order
send-IsText = record {
  header = send-IsHeader;
  one_word = ground arith;
  sized = refl;
  number = refl;
}

parse-IsRead_example :
    Returns (IsRead (written send) send.fields) (parse wire (record { params = []; header = [] }))
parse-IsRead_example =
    parse-IsRead (status send) send.fields send.payload send-IsHeader wire
      (record { params = []; header = [] }) wire-Holds

abbrev arrived : Msg
arrived = record (Messages.message inuse ib_tcp 0) { buffer = wire }

parse_msg-IsParsed_example :
    Returns
      (IsParsed "9" ib_tcp req send (pos 2) true reply_none)
      (parse_msg room "9" ib_tcp req arrived)
parse_msg-IsParsed_example =
    parse_msg-IsParsed send (pos 2) send-IsText "9" ib_tcp req room arrived room_lem wire-Holds
      (record { held = (refl, refl) })
