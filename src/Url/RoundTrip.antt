-- ===== src/Url/RoundTrip.antt =====
-- Decode takes back what Encode made, and where Encode writes past its array.
use msg_courier.Prelude.{
  ℕ, ◌*◌, ◌/◌, ◌%◌, ◌<◌, ◌≤◌, ◌≡◌, refl, sym, ap, ◌∙◌, Bool, true, false, ◌&&◌, Bool-cases, inl,
  inr, List, [], ◌∷◌, ◌++◌, append-nil, ltb, ◌==◌, if◌then◌else◌, length, length-append, All,
  All-append, lt→ltb, le→ltb, ◌⊎◌, all_below, all_below_sound, by_table, arith,
}
use msg_courier.Memory.{done, fault, ◌>>=◌}
use msg_courier.Buffer.Search.Exact.{c_str, c_str-append}
use msg_courier.HeaderExtract.Lines.{Lacks}
use msg_courier.Url.{
  is_alnum, hex, table, or_char, encode_char, encode_loop, ended, encode, is_xdigit, hex_digit,
  hex_to_int, decode_char, decode_loop, decode,
}

abbrev pub IsAscii : ℕ → Type 0
IsAscii c = c < 128

-- The text that stands for a char.
abbrev pub escape : ℕ → List ℕ
escape c = or_char c (table c)

abbrev pub escaped : List ℕ → List ℕ
escaped [] = []
escaped (c ∷ cs) = escape c ++ escaped cs

encode_loop-escaped : (s : List ℕ) → All IsAscii s → encode_loop s ≡ done (escaped s)
unfolding encode_loop encode_char
encode_loop-escaped [] h = refl
encode_loop-escaped (c ∷ cs) h =
    let low = h.0 in
    let e : ltb c 128 ≡ true = ground arith in rw (e, encode_loop-escaped cs h.1) refl

-- The three chars for one that is no letter or digit, read back.
pair_back : (c : ℕ) → IsAscii c → hex_to_int (hex (c / 16)) (hex (c % 16)) ≡ c
unfolding hex_to_int hex hex_digit all_below
pair_back c h = by_table 128 (λ c. hex_to_int (hex (c / 16)) (hex (c % 16))) (λ c. c) refl c h

digits_lem : (c : ℕ) → IsAscii c → (is_xdigit (hex (c / 16)) && is_xdigit (hex (c % 16))) ≡ true
unfolding is_xdigit hex all_below
digits_lem c h =
    all_below_sound 128 (λ c. is_xdigit (hex (c / 16)) && is_xdigit (hex (c % 16))) c refl h

not_percent : (c : ℕ) → is_alnum c ≡ true → (c == 37) ≡ false
unfolding is_alnum
not_percent c h = ground arith

plain_char : (c : ℕ) → is_alnum c ≡ true → decode_char c ≡ c ∷ []
unfolding is_alnum decode_char
plain_char c h = ground arith

decode-alnum :
    (c : ℕ) (rest : List ℕ) → is_alnum c ≡ true → decode_loop (c ∷ rest) ≡ c ∷ decode_loop rest
unfolding decode_loop
decode-alnum c [] h = plain_char c h
decode-alnum c (a ∷ []) h = rw (plain_char c h) refl
decode-alnum c (a ∷ b ∷ rest) h = rw (not_percent c h, decode_loop) (rw (plain_char c h) refl)

decode-pair :
    (a b : ℕ) (rest : List ℕ)
    → (is_xdigit a && is_xdigit b) ≡ true
    → decode_loop (37 ∷ (a ∷ (b ∷ rest))) ≡ hex_to_int a b ∷ decode_loop rest
unfolding decode_loop
decode-pair a b rest h = rw (h, decode_loop) refl

decode-escape :
    (c : ℕ) (rest : List ℕ) → IsAscii c → decode_loop (escape c ++ rest) ≡ c ∷ decode_loop rest
unfolding table
decode-escape c rest h = elim (Bool-cases (is_alnum c)) [
  | inl e ↦ rw e (decode-alnum c rest e)
  | inr e ↦ rw e (
      decode-pair (hex (c / 16)) (hex (c % 16)) rest (digits_lem c h)
      ∙ ap (λ x. x ∷ decode_loop rest) (pair_back c h))
]

decode_loop-escaped : (s : List ℕ) → All IsAscii s → decode_loop (escaped s) ≡ s
unfolding decode_loop
decode_loop-escaped [] h = refl
decode_loop-escaped (c ∷ cs) h =
    decode-escape c (escaped cs) h.0 ∙ ap (λ xs. c ∷ xs) (decode_loop-escaped cs h.1)

hex_pos : (n : ℕ) → ¬ (hex n ≡ 0)
unfolding hex
hex_pos n h = ground (arith, h)

alnum_pos : (c : ℕ) → is_alnum c ≡ true → ¬ (c ≡ 0)
unfolding is_alnum
alnum_pos c h = ground arith

escape-Lacks : (c : ℕ) → Lacks 0 (escape c)
unfolding table
escape-Lacks c = elim (Bool-cases (is_alnum c)) [
  | inl e ↦ rw e (alnum_pos c e, tt)
  | inr e ↦ rw e ((λ z. omega (arith, z)), (hex_pos (c / 16), (hex_pos (c % 16), tt)))
]

escaped-Lacks : (s : List ℕ) → Lacks 0 (escaped s)
escaped-Lacks [] = tt
escaped-Lacks (c ∷ cs) = All-append _ (escape c) (escaped cs) (escape-Lacks c) (escaped-Lacks cs)

c_str-escaped : (s : List ℕ) → c_str (escaped s) ≡ escaped s
c_str-escaped s =
    ap c_str (sym (append-nil (escaped s)))
    ∙ c_str-append (escaped s) [] (escaped-Lacks s)
    ∙ append-nil (escaped s)

length-escape : (c : ℕ) (b : Bool) → is_alnum c ≡ b → length (escape c) ≡ (if b then 1 else 3)
unfolding table
length-escape c true e = rw e refl
length-escape c false e = rw e refl

escape_bounds : (c : ℕ) → (1 ≤ length (escape c)) × (length (escape c) ≤ 3)
escape_bounds c = ground (arith, length-escape c (is_alnum c) refl)

escaped_bounds :
    (s : List ℕ) → (length s ≤ length (escaped s)) × (length (escaped s) ≤ length s * 3)
escaped_bounds [] = (omega arith, omega arith)
escaped_bounds (c ∷ cs) =
    let h = escaped_bounds cs in
    let k = escape_bounds c in
    let l = length-append (escape c) (escaped cs) in
    (omega (arith, h.0, h.1, k.0, k.1, l), omega (arith, h.0, h.1, k.0, k.1, l))

-- There is a digit or a letter in the text.
abbrev pub HasAlnum : List ℕ → Type 0
HasAlnum [] = ⊥
HasAlnum (c ∷ cs) = (is_alnum c ≡ true) ⊎ HasAlnum cs

escaped-lt : (s : List ℕ) → HasAlnum s → length (escaped s) < length s * 3
escaped-lt [] h = absurd h
escaped-lt (c ∷ cs) (inl e) =
    let h = escaped_bounds cs in
    omega (arith, h.1, length-escape c true e, length-append (escape c) (escaped cs))
escaped-lt (c ∷ cs) (inr k) =
    let h = escape_bounds c in
    omega (arith, h.1, escaped-lt cs k, length-append (escape c) (escaped cs))

escaped_none : (s : List ℕ) → All (λ c. is_alnum c ≡ false) s → length (escaped s) ≡ length s * 3
escaped_none [] h = omega arith
escaped_none (c ∷ cs) h =
    omega
      (arith, length-escape c false h.0, escaped_none cs h.1, length-append (escape c) (escaped cs))

-- Of ASCII with a letter or a digit, Encode returns what Decode takes for the text up to its first
-- NUL.
pub decode-encode :
    (s : List ℕ) → All IsAscii s → HasAlnum s → (encode s >>= decode) ≡ done (c_str s)
unfolding encode decode ended
decode-encode s h k =
    let fits : ltb (length (escaped s)) (length s * 3) ≡ true = lt→ltb _ _ (escaped-lt s k) in
    let roomy : ltb (length s) (length (escaped s) * 3) ≡ true =
      lt→ltb _ _ (let b = escaped_bounds s in let n = escaped-lt s k in omega (arith, b.0, n)) in
    rw (encode_loop-escaped s h, ◌>>=◌)
      (rw (fits) (rw (c_str-escaped s, c_str-escaped s, decode_loop-escaped s h, roomy) refl))

-- Of ASCII without a letter or a digit, the empty text included, Encode writes the NUL behind the
-- end of its array.
pub encode-fault : (s : List ℕ) → All IsAscii s → All (λ c. is_alnum c ≡ false) s → encode s ≡ fault
unfolding encode ended
encode-fault s h k =
    let full : ltb (length (escaped s)) (length s * 3) ≡ false =
      le→ltb _ _ (let n = escaped_none s k in omega (arith, n)) in
    rw (encode_loop-escaped s h, ◌>>=◌) (rw full refl)
