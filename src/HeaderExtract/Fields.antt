-- ===== src/HeaderExtract/Fields.antt =====
-- Parse and GetValue give back the fields that a message is written with.
use msg_courier.Prelude.{
  ℕ, zero, suc, ◌≤◌, ◌≡◌, refl, ap, ◌∙◌, Bool, true, false, Option, some, List, [], ◌∷◌, ◌++◌,
  if◌then◌else◌, drop, length, length-append, append_assoc, take-append_left, arith, All,
}
use msg_courier.Memory.{◌>>=◌, Returns}
use msg_courier.Buffer.{Buffer}
use msg_courier.Buffer.Append.{Holds}
use msg_courier.Buffer.Search.{strstr}
use msg_courier.Buffer.Search.Places.{strstr-drop}
use msg_courier.Buffer.Search.Exact.{c_str, find-done, read-front}
use msg_courier.Dict.{Dict, order, is_eq, lookup, insert}
use msg_courier.Dict.Laws.{lookup-insert}
use msg_courier.HeaderExtract.{
  HeaderExtract, end_of_header, last_lines, lines, extracted, parse, get_value, value_or_empty,
}
use msg_courier.HeaderExtract.Lines.{Field, IsField, Lacks, render, puts, lines-render}
use msg_courier.HeaderExtract.Header.{head, message, strstr-end, c_str-message, head-nul_free}

-- The value of the last field that has the name.
abbrev pub last : List ℕ → List Field → List ℕ → List ℕ
last name [] old = old
last name (f ∷ fs) old = last name fs (if is_eq (order name f.name) then f.value else old)

or_empty-if :
    (b : Bool) (v : List ℕ) (o : Option (List ℕ))
    → value_or_empty (if b then some v else o) ≡ (if b then v else value_or_empty o)
or_empty-if true v o = refl
or_empty-if false v o = refl

lookup-puts :
    (name : List ℕ) (fs : List Field) (params : Dict (List ℕ))
    → value_or_empty (lookup name (puts fs params))
      ≡ last name fs (value_or_empty (lookup name params))
unfolding puts
lookup-puts name [] params = refl
lookup-puts name (f ∷ fs) params =
    lookup-puts name fs (insert f.name f.value params)
    ∙ ap (last name fs) (
        ap value_or_empty (lookup-insert name f.name f.value params)
        ∙ or_empty-if (is_eq (order name f.name)) f.value (lookup name params))

c_str-drop :
    (k : ℕ) (xs ys : List ℕ)
    → Lacks 0 xs
    → k ≤ length xs
    → c_str (drop k (xs ++ ys)) ≡ drop k (c_str (xs ++ ys))
c_str-drop zero xs ys h le = refl
c_str-drop (suc k) [] ys h le = absurd (omega arith)
c_str-drop (suc k) (zero ∷ xs) ys h le = absurd (h.0 refl)
c_str-drop (suc k) (suc c ∷ xs) ys h le = c_str-drop k xs ys h.1 (omega arith)

-- A status line without a colon, and what Parse needs of the fields: the search begins at the fifth
-- byte.
pub record IsHeader (status : List ℕ) (fs : List Field) : Type 0 where
  pub one_line : Lacks 13 status
  pub colon_free : Lacks 58 status
  pub nul_free : Lacks 0 status
  pub fields : All IsField fs
  pub long : 4 ≤ length (head status fs)

-- What a reader of the header finds, and the buffer that is left.
pub record IsRead (xs : List ℕ) (fs : List Field) (r : HeaderExtract × Buffer) : Type 0 where
  pub holds : Holds r.1 xs
  pub values : (name : List ℕ) → get_value name r.0 ≡ last name fs []

module _ (status : List ℕ) (fs : List Field) (payload : List ℕ) (w : IsHeader status fs) where
  abbrev xs : List ℕ
  xs = message status fs payload

  place : strstr end_of_header (c_str (drop 4 xs)) 4 ≡ some (length (head status fs))
  place =
      ap (λ ys. strstr end_of_header ys 4)
        (c_str-drop 4 (head status fs) (end_of_header ++ payload)
            (head-nul_free status fs w.nul_free w.fields) w.long
          ∙ ap (drop 4) (c_str-message status fs payload w.nul_free w.fields))
      ∙ strstr-drop end_of_header (message status fs (c_str payload)) 4 0 (length (head status fs))
          (strstr-end status fs w.one_line w.fields (c_str payload)) w.long

  extracted_lem :
      (name : List ℕ) → get_value name (extracted (head status fs ++ last_lines)) ≡ last name fs []
  unfolding get_value extracted
  extracted_lem name =
      ap (λ p. value_or_empty (lookup name p))
        (ap (λ ys. lines [] ys []) (append_assoc status (render fs) last_lines)
          ∙ lines-render status fs [] w.one_line w.colon_free w.fields)
      ∙ lookup-puts name fs []
      ∙ unfold lookup in refl

  -- On a sound buffer with a status line without a colon, fields without a colon in their names,
  -- an empty line and any payload, where no part of the header has a NUL or a \r of its own and it
  -- has four bytes or more, Parse returns and keeps the contents: of each name, GetValue answers
  -- with the value of the last field that has it, and with an empty text if there is none.
  pub parse-IsRead :
      (b : Buffer) (h : HeaderExtract) → Holds b xs → Returns (IsRead xs fs) (parse b h)
  unfolding parse
  parse-IsRead b h holds =
      let size = length-append (head status fs) (end_of_header ++ payload) in
      let (b', found, holds') =
        find-done end_of_header 4 b xs holds (omega (arith, w.long, size))
          (omega (arith, w.long, size)) in
      let raw = read-front b' xs (length (head status fs)) holds' (omega (arith, size)) in
      let front =
        take-append_left (length (head status fs)) (head status fs) (end_of_header ++ payload)
          refl in
      rw (found, place)
        (rw (raw, ◌>>=◌)
          (record {
            holds = holds';
            values = λ name.
                ap (λ ys. get_value name (extracted (ys ++ last_lines))) front ∙ extracted_lem name;
          }))
