-- ===== src/KeyValue/Stream.antt =====
-- The values of a stream in base 64 or as they are, and what GetStream writes.
use msg_courier.Prelude.{
  ℕ, ◌≡◌, refl, sym, ap, ap₂, ◌∙◌, subst, Bool, true, false, List, [], ◌∷◌, ◌++◌, append_assoc,
  append-nil, All, arith, take, take-all,
}
use msg_courier.Memory.{done, ◌>>=◌, Malloc, Allocates, Returns, Returns-bind, read}
use msg_courier.Buffer.{Buffer, count, bytes, memory, new, replace_with, make_string}
use msg_courier.Buffer.Append.{Holds}
use msg_courier.Buffer.Copy.{copy-Holds, make_string-keeps, read-slice, length-bytes}
use msg_courier.Buffer.Valid.{IsValid, new-IsValid}
use msg_courier.Base64.{new_base64, encode, decode, decoded}
use msg_courier.Base64.Object.{IsSound, new_base64-IsSound, encode-Holds, decode-Holds}
use msg_courier.Base64.Reference.{IsByte, reference, encoded-eq-reference}
use msg_courier.Base64.RoundTrip.{decoded-encoded}
use msg_courier.Dict.{Dict}
use msg_courier.KeyValue.{bar, encode_if, decode_if, stream_loop, get_stream}
use msg_courier.KeyValue.Entries.{contents, Keeps}

unfoldable pub coded : Bool → List ℕ → List ℕ
unfolding reference
coded true v = reference v
coded false v = v

-- key|value|key|value|
unfoldable pub printed : Bool → Dict (List ℕ) → List ℕ
unfolding coded
printed e [] = []
printed e (d ∷ ds) = d.0 ++ (bar ∷ (coded e d.1 ++ (bar ∷ printed e ds)))

abbrev pub AllBytes : Dict (List ℕ) → Type 0
AllBytes es = All (λ d. All IsByte d.1) es

module _ (malloc : Malloc) (works : Allocates malloc) where
  pub encode_if-Holds :
      (e : Bool) (b : Buffer) (v : List ℕ)
      → Holds b v
      → All IsByte v
      → Returns (λ b'. Holds b' (coded e v)) (encode_if malloc e b)
  unfolding encode_if coded
  encode_if-Holds true b v h are_bytes =
      let are_bytes' = subst (All IsByte) (sym h.stands_for) are_bytes in
      Returns-bind (λ r. IsSound r.0 × Holds r.1 (reference (bytes b))) _
        (encode malloc new_base64 b) _
        (encode-Holds malloc works new_base64 b new_base64-IsSound h.valid are_bytes')
        (λ r k. subst (λ ys. Holds r.1 (reference ys)) h.stands_for k.1)
  encode_if-Holds false b v h are_bytes = h

  pub decode_if-Holds :
      (e : Bool) (b : Buffer) (v : List ℕ)
      → Holds b (coded e v)
      → All IsByte v
      → Returns (λ b'. Holds b' v) (decode_if malloc e b)
  unfolding decode_if coded
  decode_if-Holds true b v h are_bytes =
      let back =
        ap decoded (h.stands_for ∙ sym (encoded-eq-reference v are_bytes))
        ∙ decoded-encoded v are_bytes in
      Returns-bind (λ r. IsSound r.0 × Holds r.1 (decoded (bytes b))) _ (decode malloc new_base64 b)
        _ (decode-Holds malloc works new_base64 b new_base64-IsSound h.valid)
        (λ r k. subst (Holds r.1) back k.1)
  decode_if-Holds false b v h are_bytes = h

  read_all : (b : Buffer) (xs : List ℕ) → Holds b xs → read (memory b.block) 0 b.tail ≡ done xs
  read_all b xs h =
      let t = length-bytes b xs h in
      read-slice b xs 0 b.tail h (omega (arith, t))
      ∙ ap (λ n. done (take n xs)) (sym t)
      ∙ ap done (take-all xs)

  -- The loop of GetStream over the rest of a map.
  loop-Prints :
      (e : Bool) (m : Dict Buffer) (out : List ℕ) (temp : Buffer)
      → All (λ d. IsValid d.1) m
      → AllBytes (contents m)
      → IsValid temp
      → Returns
          (λ r. Keeps (contents m) r.0 × (r.1 ≡ out ++ printed e (contents m)))
          (stream_loop malloc e m out temp)
  unfolding stream_loop printed
  loop-Prints e [] out temp h are_bytes v =
      (record { same = refl; valid = tt }, sym (append-nil out))
  loop-Prints e (d ∷ m) out temp h are_bytes v =
      let (k, b) = d in
      Returns-bind (λ b'. Holds b' (bytes b)) _ (make_string b) _
        (make_string-keeps b (bytes b) (record { valid = h.0; stands_for = refl }))
        (λ b' hb.
          Returns-bind (λ r. Holds r.1 (bytes b)) _
            (replace_with malloc b'.block (count b'.tail) temp) _
            (copy-Holds malloc works b' (bytes b) hb temp v)
            (λ r hr.
              Returns-bind (λ t. Holds t (coded e (bytes b))) _ (encode_if malloc e r.1) _
                (encode_if-Holds e r.1 (bytes b) hr are_bytes.0)
                (λ t₁ h₁.
                  Returns-bind (λ t. Holds t (coded e (bytes b))) _ (make_string t₁) _
                    (make_string-keeps t₁ (coded e (bytes b)) h₁)
                    (λ t₂ h₂.
                      rw (read_all t₂ (coded e (bytes b)) h₂, ◌>>=◌)
                        (Returns-bind _ _
                          (stream_loop malloc e m
                            (out ++ (k ++ (bar ∷ (coded e (bytes b) ++ (bar ∷ []))))) t₂)
                          _
                          (loop-Prints e m (out ++ (k ++ (bar ∷ (coded e (bytes b) ++ (bar ∷ [])))))
                            t₂ h.1 are_bytes.1 h₂.valid)
                          (λ q hq. (
                            record {
                              same = ap₂ (λ x y. (k, x) ∷ y) hb.stands_for hq.0.same;
                              valid = (hb.valid, hq.0.valid);
                            },
                            hq.1 ∙ simp append_assoc refl,
                          )))))))

  -- GetStream keeps the entries and appends each of them in the order of the keys: the key, a bar,
  -- the value, in base 64 where that is asked for, and a bar.
  pub get_stream-Prints :
      (e : Bool) (es : Dict (List ℕ)) (m : Dict Buffer) (out : List ℕ)
      → Keeps es m
      → AllBytes es
      → Returns (λ r. Keeps es r.0 × (r.1 ≡ out ++ printed e es)) (get_stream malloc e m out)
  unfolding get_stream
  get_stream-Prints e es m out kept are_bytes =
      subst
        (λ d. Returns (λ r. Keeps d r.0 × (r.1 ≡ out ++ printed e d)) (get_stream malloc e m out))
        kept.same
        (loop-Prints e m out new kept.valid (subst AllBytes (sym kept.same) are_bytes) new-IsValid)
