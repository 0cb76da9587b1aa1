-- ===== src/Base64/Object.antt =====
-- The two methods on their buffers: they stay inside m_InternalBuffer, and leave in the caller's
-- buffer what their loops compute.
use msg_courier.Prelude.{
  ℕ, ◌+◌, ◌*◌, ◌-◌, ◌<◌, ◌≤◌, ◌≡◌, refl, sym, ◌∙◌, ap, subst, inl, inr, ◌⊎◌, some, List, [], ◌∷◌,
  ◌++◌, take, arith, All, length, length-append, length-take, length-take_le,
}
use msg_courier.Memory.{
  Outcome, done, Returns-bind, ◌>>=◌, Malloc, Allocates, Returns, read, write, overwrite,
}
use msg_courier.Memory.Laws.{
  read_start-done, write_start-done, length-overwrite, take-overwrite_start,
}
use msg_courier.Buffer.{Buffer, no_error, count, bytes, memory, reset, new, replace_with}
use msg_courier.Buffer.Valid.{IsValid, reset-IsValid, new-IsValid}
use msg_courier.Buffer.Grow.{Grown, set_buffer_size-Grown}
use msg_courier.Buffer.Append.{Holds, replace_with-Holds}
use msg_courier.Buffer.Insert.{memory_lem}
use msg_courier.Base64.{
  Base64, new_base64, Loop, encode, decode, recode, encoded, decoded, decode_char, decode_loop,
  decode_end, bytes_of,
}
use msg_courier.Base64.Reference.{IsByte, reference, encoded-eq-reference}
use msg_courier.Base64.RoundTrip.{waiting, decoded-encoded}

-- m_InternalBuffer is not there, or has room for a long.
pub record IsSound (s : Base64) : Type 0 where
  pub valid : IsValid s.internal
  pub roomy : (s.internal.size ≡ 0) ⊎ (8 ≤ s.internal.size)

pub new_base64-IsSound : IsSound new_base64
unfolding new_base64 new
new_base64-IsSound = record { valid = new-IsValid; roomy = inl refl }

module _ (malloc : Malloc) (works : Allocates malloc) (f : List ℕ → List ℕ) (size : ℕ) (s : Base64)
    (b : Buffer) (sound : IsSound s) (v : IsValid b)
    (room : (k : ℕ) → size < k → 8 ≤ k → length (f (bytes b)) ≤ k) where
  recode-Holds : Returns (λ r. IsSound r.0 × Holds r.1 (f (bytes b))) (recode f size malloc s b)
  unfolding recode reset
  recode-Holds =
      let old = reset-IsValid s.internal sound.valid in
      let (sized, ran, g) = set_buffer_size-Grown malloc works size (reset s.internal) old in
      let m = memory_lem b v in
      let out = f (bytes b) in
      let enough : length out ≤ sized.size = room sized.size g.room (roomy_enough sized g) in
      let src : read (memory b.block) 0 b.tail ≡ done (bytes b) =
        read_start-done (memory b.block) b.tail m.within ∙ ap done (sym m.shows) in
      let filled = overwrite g.held 0 out in
      let stored : write (memory sized.block) 0 out ≡ done filled =
        ap (λ blk. write (memory blk) 0 out) g.at
        ∙ write_start-done g.held out (omega (arith, g.fits)) in
      let kept = length-overwrite g.held 0 out (omega (arith, g.fits)) in
      let shown = take-overwrite_start g.held (length out) out refl in
      let internal : Buffer = record sized { block = some filled } in
      rw (ran, src, stored)
        (Returns-bind (λ r. (r.0 ≡ no_error) × Holds r.1 (take (length out) filled))
          (λ r. IsSound r.0 × Holds r.1 out)
          (replace_with malloc (some filled) (count (length out)) b)
          (λ r. done (record { internal = internal }, r.1))
          (replace_with-Holds malloc works filled (length out) b v (omega (arith, g.fits)))
          (λ r h. (
            record {
              valid = record { held = (omega (arith, g.fits), g.inside) };
              roomy = inr (roomy_enough sized g);
            },
            subst (Holds r.1) shown h.1,
          )))
    where
      roomy_enough : (sized : Buffer) → Grown (reset s.internal) size sized → 8 ≤ sized.size
      roomy_enough sized g = elim g.by_a_long [
        | inl same ↦ elim sound.roomy [
          | inl nothing ↦ absurd (omega (arith, same, nothing, g.room))
          | inr roomy ↦ omega (arith, same, roomy)
        ]
        | inr more ↦ omega (arith, more)
      ]

length-reference : (xs : List ℕ) → 3 * length (reference xs) ≤ 4 * length xs + 8
unfolding reference
length-reference [] = omega arith
length-reference (a ∷ []) = omega arith
length-reference (a ∷ b ∷ []) = omega arith
length-reference (a ∷ b ∷ c ∷ xs) = omega (arith, length-reference xs)

-- Decoding never makes more bytes than it reads.
abbrev held : Loop → ℕ
held s = length s.group + length s.out

length-decode_char : (s : Loop) (c : ℕ) → held (decode_char s c) ≤ held s + 1
unfolding decode_char bytes_of
length-decode_char s c =
    ground
      (arith, length-append s.group (c ∷ []), length-append s.out (bytes_of (s.group ++ c ∷ [])))

length-decode_loop : (s : Loop) (cs : List ℕ) → held (decode_loop s cs) ≤ held s + length cs
unfolding decode_loop
length-decode_loop s [] = omega arith
length-decode_loop s (c ∷ cs) =
    ground (arith, length-decode_loop (decode_char s c) cs, length-decode_char s c)

length-decode_end : (s : Loop) → length (decode_end s) ≤ held s
unfolding decode_end
length-decode_end s = ground (
  arith,
  length-append s.out (take (length s.group - 1) (bytes_of s.group)),
  length-take_le (length s.group - 1) (bytes_of s.group),
)

length-decoded : (cs : List ℕ) → length (decoded cs) ≤ length cs
unfolding decoded
length-decoded cs = omega (
  arith,
  length-decode_loop (waiting [] []) cs,
  length-decode_end (decode_loop (waiting [] []) cs),
)

module _ (malloc : Malloc) (works : Allocates malloc) (s : Base64) (b : Buffer) (sound : IsSound s)
    (v : IsValid b) where
  length-bytes : length (bytes b) ≡ b.tail
  length-bytes =
      let m = memory_lem b v in ap length m.shows ∙ length-take b.tail (memory b.block) m.within

  encode_fits :
      All IsByte (bytes b) → (k : ℕ) → b.tail * 2 < k → 8 ≤ k → length (encoded (bytes b)) ≤ k
  encode_fits are_bytes k large long = omega (
    arith,
    ap length (encoded-eq-reference (bytes b) are_bytes),
    length-reference (bytes b),
    length-bytes,
  )

  decode_fits : (k : ℕ) → b.tail < k → 8 ≤ k → length (decoded (bytes b)) ≤ k
  decode_fits k large long = omega (arith, length-decoded (bytes b), length-bytes)

  -- With memory left, on a sound buffer of bytes Encode returns, never writes past
  -- m_InternalBuffer, and leaves the base 64 of the buffer's contents in the buffer; both buffers
  -- stay sound.
  pub encode-Holds :
      All IsByte (bytes b)
      → Returns (λ r. IsSound r.0 × Holds r.1 (reference (bytes b))) (encode malloc s b)
  unfolding encode
  encode-Holds are_bytes =
      subst (λ xs. Returns (λ r. IsSound r.0 × Holds r.1 xs) (encode malloc s b))
        (encoded-eq-reference (bytes b) are_bytes)
        (recode-Holds malloc works encoded (b.tail * 2) s b sound v (encode_fits are_bytes))

  -- With memory left, on any sound buffer Decode returns, never writes past m_InternalBuffer, and
  -- leaves the decoded contents in the buffer; both buffers stay sound.
  pub decode-Holds : Returns (λ r. IsSound r.0 × Holds r.1 (decoded (bytes b))) (decode malloc s b)
  unfolding decode
  decode-Holds = recode-Holds malloc works decoded b.tail s b sound v decode_fits

-- Encode and then Decode, with one object, on one buffer.
pub recover : Malloc → Base64 → Buffer → Outcome (Base64 × Buffer)
recover malloc s b = do (s', b') ← encode malloc s b; decode malloc s' b'

-- With memory left, on a sound buffer of bytes, Encode and then Decode return, and the buffer has
-- its contents again.
pub recover-Holds :
    (malloc : Malloc) (s : Base64) (b : Buffer)
    → Allocates malloc
    → IsSound s
    → IsValid b
    → All IsByte (bytes b)
    → Returns (λ r. IsSound r.0 × Holds r.1 (bytes b)) (recover malloc s b)
unfolding recover
recover-Holds malloc s b works sound v are_bytes =
    Returns-bind (λ r. IsSound r.0 × Holds r.1 (reference (bytes b))) _ (encode malloc s b)
      (λ r. decode malloc r.0 r.1) (encode-Holds malloc works s b sound v are_bytes)
      (λ r h.
        subst (λ xs. Returns (λ q. IsSound q.0 × Holds q.1 xs) (decode malloc r.0 r.1))
          (back r.1 h.1) (decode-Holds malloc works r.0 r.1 h.0 h.1.valid))
  where
    back : (b' : Buffer) → Holds b' (reference (bytes b)) → decoded (bytes b') ≡ bytes b
    back b' h =
        ap decoded (h.stands_for ∙ sym (encoded-eq-reference (bytes b) are_bytes))
        ∙ decoded-encoded (bytes b) are_bytes
