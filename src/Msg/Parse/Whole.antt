-- ===== src/Msg/Parse/Whole.antt =====
-- Parse on such a text, from the buffer to the fields.
use Prim.Native.String.{String}
use msg_courier.Prelude.{
  ℕ, ◌≤◌, ◌<◌, ◌≡◌, refl, sym, ap, ◌∙◌, ℤ, true, false, Option, none, some, List, [], ◌∷◌, ◌++◌,
  ◌==◌, take, length, length-append, append_assoc, take-append_left, arith, text,
}
use msg_courier.Memory.{done, ◌>>=◌, Block, Malloc, Allocates, Returns, Returns-done, read}
use msg_courier.Buffer.{Buffer, count, memory, replace_with}
use msg_courier.Buffer.Append.{Holds}
use msg_courier.Buffer.Insert.{memory_lem}
use msg_courier.Buffer.Valid.{IsValid}
use msg_courier.Buffer.Search.{begins, strstr}
use msg_courier.Buffer.Search.Places.{strstr-append}
use msg_courier.Buffer.Search.Exact.{c_str, find-done, read-front}
use msg_courier.Buffer.Copy.{length-bytes, copy-Holds}
use msg_courier.Buffer.Search.Binary.{binary_find-done}
use msg_courier.HeaderExtract.{end_of_header, parse}
use msg_courier.HeaderExtract.Lines.{Field, render}
use msg_courier.HeaderExtract.Header.{head, strstr-end, c_str-message}
use msg_courier.HeaderExtract.Fields.{IsRead, parse-IsRead}
use msg_courier.Msg.{Msg, ConnectionType, Format}
use msg_courier.Msg.Parse.{
  crlf, command_by, parse_header, status_by, parse_lines, parse_data, parse_msg,
}
use msg_courier.Msg.Parse.Read.{
  Text, IsText, IsParsed, status, written, header_fields-IsParsed, lengths,
}

begins-crlf :
    (fs : List Field) (payload : List ℕ)
    → begins crlf (render fs ++ (end_of_header ++ payload)) ≡ true
unfolding render begins
begins-crlf [] payload = refl
begins-crlf (f ∷ fs) payload = refl

begins-space : (ys : List ℕ) → begins (32 ∷ []) (32 ∷ ys) ≡ true
unfolding begins
begins-space ys = refl

module _ (t : Text) (n : ℤ) (w : IsText t n) (id : String) (ct : ConnectionType) (ms : Format) where
  abbrev Shown : Msg → Msg → Type 0
  Shown m = IsParsed id ct ms t n m.keep_alive m.reply_action

  first_space : strstr (32 ∷ []) (c_str (written t)) 0 ≡ some (length t.command)
  first_space =
      ap (λ ys. strstr (32 ∷ []) ys 0)
        (c_str-message (status t) t.fields t.payload w.header.nul_free w.header.fields
          ∙ append_assoc (status t) (render t.fields) (end_of_header ++ c_str t.payload)
          ∙ append_assoc t.command (32 ∷ t.rest)
              (render t.fields ++ (end_of_header ++ c_str t.payload)))
      ∙ strstr-append 32 [] t.command _ 0 w.one_word (begins-space _)
      ∙ ap some (omega arith)

  first_line : strstr crlf (written t) 0 ≡ some (length (status t))
  first_line =
      ap (λ ys. strstr crlf ys 0)
        (append_assoc (status t) (render t.fields) (end_of_header ++ t.payload))
      ∙ strstr-append 13 (10 ∷ []) (status t) _ 0 w.header.one_line (begins-crlf t.fields t.payload)
      ∙ ap some (omega arith)

  front : (ys zs : List ℕ) → written t ≡ ys ++ zs → take (length ys) (written t) ≡ ys
  front ys zs e = ap (take (length ys)) e ∙ take-append_left (length ys) ys zs refl

  sizes :
      (length (status t) ≤ length (head (status t) t.fields))
      × (length t.command < length (status t))
  sizes = (
    omega (arith, length-append (status t) (render t.fields)),
    omega (arith, length-append t.command (32 ∷ t.rest)),
  )

  command_front : take (length t.command) (written t) ≡ t.command
  command_front =
      front t.command ((32 ∷ t.rest) ++ (render t.fields ++ (end_of_header ++ t.payload))) (
        append_assoc (status t) (render t.fields) (end_of_header ++ t.payload)
        ∙ append_assoc t.command (32 ∷ t.rest) (render t.fields ++ (end_of_header ++ t.payload)))

  status_front : take (length (status t)) (written t) ≡ status t
  status_front =
      front (status t) (render t.fields ++ (end_of_header ++ t.payload))
        (append_assoc (status t) (render t.fields) (end_of_header ++ t.payload))

  parse_header-IsParsed :
      (m : Msg)
      → Holds m.buffer (written t)
      → Holds m.raw_buffer (written t)
      → m.status_line ≡ text (status t)
      → Returns (Shown m) (parse_header id ct ms (length (head (status t) t.fields)) m)
  unfolding parse_header command_by
  parse_header-IsParsed m holds raw line =
      let size = lengths t n w id ct ms in
      let (b, found, holds_b) =
        find-done (32 ∷ []) 0 m.buffer (written t) holds (omega (arith, size))
          (omega (arith, size)) in
      let name =
        read-front b (written t) (length t.command) holds_b (omega (arith, size, sizes.0, sizes.1))
        ∙ ap done command_front in
      let (r, ran, read) =
        Returns-done (IsRead (written t) t.fields) (parse b m.header_extract)
          (parse-IsRead (status t) t.fields t.payload w.header b m.header_extract holds_b) in
      rw (found, first_space)
        (rw (name, ◌>>=◌)
          (rw (ran, ◌>>=◌) (header_fields-IsParsed t n w id ct ms m r.1 r.0 raw line read)))

  parse_lines-IsParsed :
      (m : Msg) (block : Block)
      → m.buffer.block ≡ some block
      → Holds m.buffer (written t)
      → Holds m.raw_buffer (written t)
      → Returns (Shown m) (parse_lines id ct ms block m)
  unfolding parse_lines status_by
  parse_lines-IsParsed m block e holds raw =
      let size = lengths t n w id ct ms in
      let first =
        binary_find-done crlf m.buffer (written t) (length (status t)) holds (omega arith)
          first_line (omega (arith, size, sizes.0)) in
      let last =
        binary_find-done end_of_header m.buffer (written t) (length (head (status t) t.fields))
          holds (omega arith)
          (strstr-end (status t) t.fields w.header.one_line w.header.fields t.payload)
          (omega (arith, size)) in
      let some_line : (length (status t) == 0) ≡ false = let s = sizes.1 in ground arith in
      let line =
        ap (λ blk. read (memory blk) 0 (length (status t))) (sym e)
        ∙ read-front m.buffer (written t) (length (status t)) holds (omega (arith, size, sizes.0))
        ∙ ap done status_front in
      rw (first, ◌>>=◌)
        (rw (some_line) (
          rw (line, ◌>>=◌)
            (rw (last, ◌>>=◌)
              (parse_header-IsParsed (record m { status_line = text (status t) }) holds raw refl))))

  has_block : (b : Buffer) → b.block ≡ none → ¬ (Holds b (written t))
  has_block b e holds =
      let shows = memory_lem b holds.valid in
      omega (
        arith,
        lengths t n w id ct ms,
        length-bytes b (written t) holds,
        shows.within,
        ap (λ blk. length (memory blk)) e,
      )

  parse_data-IsParsed :
      (m : Msg) (blk : Option Block)
      → m.buffer.block ≡ blk
      → Holds m.buffer (written t)
      → Holds m.raw_buffer (written t)
      → Returns (Shown m) (parse_data blk id ct ms m)
  unfolding parse_data
  parse_data-IsParsed m none e holds raw = absurd (has_block m.buffer e holds)
  parse_data-IsParsed m (some block) e holds raw = parse_lines-IsParsed m block e holds raw

  -- With memory left, on a message whose buffer is sound and holds a status line of a command and
  -- more without a colon, fields, an empty line and any payload, where the raw buffer is sound and
  -- Content-Length is a number, Parse returns and keeps the text in both buffers. The status line
  -- and the command are those of the text, each property that has a field comes from the last
  -- field of its name, and the payload begins behind the empty line.
  pub parse_msg-IsParsed :
      (malloc : Malloc) (m : Msg)
      → Allocates malloc
      → Holds m.buffer (written t)
      → IsValid m.raw_buffer
      → Returns (Shown m) (parse_msg malloc id ct ms m)
  unfolding parse_msg
  parse_msg-IsParsed malloc m works holds v =
      let (r, ran, raw) =
        Returns-done _ (replace_with malloc m.buffer.block (count m.buffer.tail) m.raw_buffer)
          (copy-Holds malloc works m.buffer (written t) holds m.raw_buffer v) in
      rw (ran, ◌>>=◌)
        (parse_data-IsParsed (record m { raw_buffer = r.1 }) m.buffer.block refl holds raw)
