-- ===== src/Base64/RoundTrip.antt =====
-- Decode takes back what Encode made.
use msg_courier.Prelude.{
  ℕ, ◌+◌, ◌*◌, ◌/◌, ◌%◌, ◌<◌, ◌≡◌, refl, sym, ◌∙◌, ap, bit_and, List, [], ◌∷◌, ◌++◌, append_assoc,
  append-nil, arith, All,
}
use msg_courier.Base64.{
  letter, triple, Loop, decode_char, accepts, decode_loop, decode_end, decoded, encoded,
}
use msg_courier.Base64.Words.{
  find-letter, accepts-letter, triple-quad, low_four, bits_4_5, bits_2_5,
}
use msg_courier.Base64.Reference.{IsByte, reference, encoded-eq-reference}

-- A letter is taken into the group.
decode_loop-letter :
    (s : Loop) (i : ℕ) (cs : List ℕ)
    → i < 64
    → decode_loop s (letter i ∷ cs) ≡ decode_loop (decode_char s (letter i)) cs
unfolding decode_loop
decode_loop-letter s i cs h = rw (accepts-letter i h, decode_loop)

abbrev pub waiting : List ℕ → List ℕ → Loop
waiting g out = record { group = g; out = out }

-- Four letters leave the three bytes of their digits.
decode_loop-group :
    (i j k l : ℕ) (out cs : List ℕ)
    → i < 64
    → j < 64
    → k < 64
    → l < 64
    → decode_loop (waiting [] out) (letter i ∷ letter j ∷ letter k ∷ letter l ∷ cs)
      ≡ decode_loop (waiting [] (out ++ triple i j k l)) cs
unfolding decode_char
decode_loop-group i j k l out cs hi hj hk hl =
    decode_loop-letter (waiting [] out) i _ hi
    ∙ decode_loop-letter (waiting (letter i ∷ []) out) j _ hj
    ∙ decode_loop-letter (waiting (letter i ∷ letter j ∷ []) out) k _ hk
    ∙ decode_loop-letter (waiting (letter i ∷ letter j ∷ letter k ∷ []) out) l cs hl
    ∙ rw (find-letter i hi, find-letter j hj, find-letter k hk, find-letter l hl)

-- A last group of two or three letters leaves one byte or two.
decode_end-one :
    (a : ℕ) (out : List ℕ)
    → IsByte a
    → decode_end (waiting (letter (a / 4) ∷ letter (a % 4 * 16) ∷ []) out) ≡ out ++ a ∷ []
unfolding decode_end
decode_end-one a out h =
    rw (find-letter (a / 4) (omega arith), find-letter (a % 4 * 16) (omega arith))
      (let low = bits_4_5 (a % 4 * 16) (omega arith) in
        ap (λ x. out ++ x ∷ []) {y = a} (omega (arith, low)))

decode_end-two :
    (a b : ℕ) (out : List ℕ)
    → IsByte a
    → IsByte b
    → decode_end
        (waiting (letter (a / 4) ∷ letter (a % 4 * 16 + b / 16) ∷ letter (b % 16 * 4) ∷ []) out)
      ≡ out ++ a ∷ b ∷ []
unfolding decode_end
decode_end-two a b out ha hb =
    let q = a % 4 * 16 + b / 16 in
    let r = b % 16 * 4 in
    let hq : q < 256 = omega arith in
    let hr : r < 256 = omega arith in
    let first : (a / 4 * 4 + bit_and q 0x30 / 16) % 256 ≡ a = omega (arith, bits_4_5 q hq) in
    let second : (bit_and q 0xf * 16 + bit_and r 0x3c / 4) % 256 ≡ b =
      omega (arith, low_four q hq, bits_2_5 r hr) in
    rw (find-letter (a / 4) (omega arith), find-letter q (omega arith), find-letter r (omega arith))
      (cc (first, second))

decode_loop-reference :
    (xs out : List ℕ)
    → All IsByte xs
    → decode_end (decode_loop (waiting [] out) (reference xs)) ≡ out ++ xs
unfolding reference decode_char
decode_loop-reference [] out h = unfold decode_loop decode_end in sym (append-nil out)
decode_loop-reference (a ∷ []) out h =
    ap decode_end (
      decode_loop-letter (waiting [] out) (a / 4) _ (omega arith)
      ∙ decode_loop-letter (waiting (letter (a / 4) ∷ []) out) (a % 4 * 16) _ (omega arith)
      ∙ stop)
    ∙ decode_end-one a out h.0
  where
    stop :
        decode_loop (waiting (letter (a / 4) ∷ letter (a % 4 * 16) ∷ []) out) (b'=' ∷ b'=' ∷ [])
        ≡ waiting (letter (a / 4) ∷ letter (a % 4 * 16) ∷ []) out
    stop = unfold decode_loop accepts in refl
decode_loop-reference (a ∷ b ∷ []) out h =
    ap decode_end (
      decode_loop-letter (waiting [] out) (a / 4) _ (omega arith)
      ∙ decode_loop-letter (waiting (letter (a / 4) ∷ []) out) (a % 4 * 16 + b / 16) _ (omega arith)
      ∙ decode_loop-letter (waiting (letter (a / 4) ∷ letter (a % 4 * 16 + b / 16) ∷ []) out)
          (b % 16 * 4) _ (omega arith)
      ∙ stop)
    ∙ decode_end-two a b out h.0 h.1.0
  where
    last : Loop
    last = waiting (letter (a / 4) ∷ letter (a % 4 * 16 + b / 16) ∷ letter (b % 16 * 4) ∷ []) out

    stop : decode_loop last (b'=' ∷ []) ≡ last
    stop = unfold decode_loop accepts in refl
decode_loop-reference (a ∷ b ∷ c ∷ xs) out h =
    ap decode_end (
      decode_loop-group (a / 4) (a % 4 * 16 + b / 16) (b % 16 * 4 + c / 64) (c % 64) out
        (reference xs) (omega arith) (omega arith) (omega arith) (omega arith))
    ∙ ap (λ g. decode_end (decode_loop (waiting [] (out ++ g)) (reference xs)))
        (triple-quad a b c h.0 h.1.0 h.1.1.0)
    ∙ decode_loop-reference xs (out ++ a ∷ b ∷ c ∷ []) h.1.1.1
    ∙ append_assoc out (a ∷ b ∷ c ∷ []) xs

-- For a text of bytes, decoding its base 64 gives the text back.
pub decoded-encoded : (xs : List ℕ) → All IsByte xs → decoded (encoded xs) ≡ xs
unfolding decoded
decoded-encoded xs h = ap decoded (encoded-eq-reference xs h) ∙ decode_loop-reference xs [] h
