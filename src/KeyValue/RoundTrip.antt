-- ===== src/KeyValue/RoundTrip.antt =====
-- Parse reads what GetStream writes.
use msg_courier.Prelude.{
  ℕ, zero, suc, ◌+◌, ◌≤◌, ◌<◌, ◌≡◌, refl, sym, ap, ◌∙◌, subst, Bool, false, some, List, [], ◌∷◌,
  ◌++◌, append_assoc, append-nil, All, All-map, All-append_right, arith, take, take-all, drop,
  length, length-append, length-drop,
}
use msg_courier.Memory.{Outcome, done, ◌>>=◌, Block, Malloc, Allocates, Returns, Returns-bind, read}
use msg_courier.Buffer.{Buffer, count, memory, new, replace_with, make_string}
use msg_courier.Buffer.Append.{Holds, replace_with-Holds}
use msg_courier.Buffer.Copy.{make_string-keeps, read-slice, slice_lem, room_lem, length-bytes}
use msg_courier.Buffer.Search.Piece.{find_char-piece, find_char-end}
use msg_courier.Buffer.Valid.{new-IsValid}
use Prim.Native.Nat.{Ordering}
use msg_courier.Dict.{Dict, order, insert}
use msg_courier.Dict.Laws.{IsSorted, insert_last}
use msg_courier.KeyValue.{bar, set, take_value, decode_if, parse_loop, parse, get_stream}
use msg_courier.KeyValue.Entries.{Keeps, set-Keeps}
use msg_courier.KeyValue.Stream.{coded, printed, decode_if-Holds, get_stream-Prints}
use msg_courier.KeyValue.Pieces.{IsEntry, puts, At, past, piece_lem, c_str_lem, past_mark}

module _ (malloc : Malloc) (works : Allocates malloc) (e : Bool) (xs : List ℕ) where
  -- The value of one entry.
  take_value-Keeps :
      (b : Buffer) (mark : ℕ) (k v rest : List ℕ) (es : Dict (List ℕ)) (m : Dict Buffer)
      → At b xs mark (coded e v ++ (bar ∷ rest))
      → IsEntry e (k, v)
      → Keeps es m
      → Returns
          (Keeps (insert k v es))
          (take_value malloc e (drop mark (memory b.block)) (length (coded e v)) k m)
  unfolding take_value
  take_value-Keeps b mark k v rest es m a h kept =
      let n = length (coded e v) in
      let (le, shown) = piece_lem b xs mark (coded e v) rest a in
      Returns-bind _ _ (replace_with malloc (some (drop mark (memory b.block))) (count n) new) _
        (replace_with-Holds malloc works (drop mark (memory b.block)) n new new-IsValid
          (room_lem b xs mark n a.holds le))
        (λ r hr.
          let piece = subst (Holds r.1) (slice_lem b xs mark n a.holds le ∙ shown) hr.1 in
          Returns-bind (λ c. Holds c v) _ (decode_if malloc e r.1) _
            (decode_if-Holds malloc works e r.1 v piece h.are_bytes)
            (λ c hc.
              Returns-bind (λ c'. Holds c' v) _ (make_string c) _ (make_string-keeps c v hc)
                (λ c' hc'.
                  subst (λ j. Returns (Keeps (insert j v es)) (set malloc k c'.block c'.tail m))
                    (c_str_lem k h.key_free.1) (set-Keeps malloc works es m kept k c' v hc'))))

  loop-Keeps :
      (ds : Dict (List ℕ)) (rounds : ℕ) (b : Buffer) (mark : ℕ) (es : Dict (List ℕ))
      (m : Dict Buffer)
      → At b xs mark (printed e ds)
      → All (IsEntry e) ds
      → length (printed e ds) < rounds
      → Keeps es m
      → Returns (Keeps (puts ds es)) (parse_loop malloc e rounds b false mark [] m)
  unfolding parse_loop printed
  loop-Keeps [] zero b mark es m a h lt kept = absurd (omega arith)
  loop-Keeps [] (suc rounds) b mark es m a h lt kept =
      let t = length-bytes b xs a.holds in
      let none_left =
        find_char-end b bar mark (omega (arith, t, ap length a.ahead, length-drop mark xs)) in
      rw (none_left, ◌>>=◌) kept
  loop-Keeps (d ∷ ds) zero b mark es m a h lt kept = absurd (omega arith)
  loop-Keeps (d ∷ ds) (suc zero) b mark es m a h lt kept =
      absurd (omega (arith, lt, length-append d.0 (bar ∷ (coded e d.1 ++ (bar ∷ printed e ds)))))
  loop-Keeps (d ∷ ds) (suc (suc rounds)) b mark es m a h lt kept =
      let (k, v) = d in
      let later = coded e v ++ (bar ∷ printed e ds) in
      let (le, shown) = piece_lem b xs mark k later a in
      let found = find_char-piece b xs bar mark k later a.holds a.inside a.ahead h.0.key_free.0 in
      rw (found, ◌>>=◌)
        (Returns-bind (λ c. Holds c xs) _ (make_string b) _ (make_string-keeps b xs a.holds)
          (λ b₁ h₁.
            let key =
              ap (read (memory b₁.block) mark) (past_mark mark (length k))
              ∙ read-slice b₁ xs mark (length k) h₁ le
              ∙ ap done shown in
            let a₁ = past b b₁ xs mark k later a h₁ in
            let mark₁ = mark + length k + 1 in
            let found₁ =
              find_char-piece b₁ xs bar mark₁ (coded e v) (printed e ds) h₁ a₁.inside a₁.ahead
                h.0.value_free in
            rw (key, ◌>>=◌)
              (rw (found₁, ◌>>=◌)
                (Returns-bind (λ c. Holds c xs) _ (make_string b₁) _ (make_string-keeps b₁ xs h₁)
                  (λ b₂ h₂.
                    let a₂ : At b₂ xs mark₁ later = record {
                      holds = h₂;
                      inside = a₁.inside;
                      ahead = a₁.ahead;
                    } in
                    rw (past_mark mark₁ (length (coded e v))) (
                      Returns-bind (Keeps (insert k v es)) _
                        (take_value malloc e (drop mark₁ (memory b₂.block)) (length (coded e v)) k
                          m)
                        _ (take_value-Keeps b₂ mark₁ k v (printed e ds) es m a₂ h.0 kept)
                        (λ m' kept'.
                          loop-Keeps ds rounds b₂ (mark₁ + length (coded e v) + 1) (insert k v es)
                            m' (past b₁ b₂ xs mark₁ (coded e v) (printed e ds) a₁ h₂) h.1
                            (omega (
                              arith,
                              lt,
                              length-append k (bar ∷ later),
                              length-append (coded e v) (bar ∷ printed e ds),
                            ))
                            kept')))))))

-- Parse of a stream puts its entries into the map in their order, in base 64 or as they are, and
-- keeps all others; it always returns.
pub parse-Keeps :
    (malloc : Malloc) (e : Bool) (ds es : Dict (List ℕ)) (p : Block) (n : ℕ) (m : Dict Buffer)
    → Allocates malloc
    → All (IsEntry e) ds
    → take n p ≡ printed e ds
    → n ≤ length p
    → Keeps es m
    → Returns (Keeps (puts ds es)) (parse malloc e (some p) n m)
unfolding parse
parse-Keeps malloc e ds es p n m works h shown long kept =
    Returns-bind _ _ (replace_with malloc (some p) (count n) new) _
      (replace_with-Holds malloc works p n new new-IsValid long)
      (λ r hr.
        let holds = subst (Holds r.1) shown hr.1 in
        let t = length-bytes r.1 (printed e ds) holds in
        loop-Keeps malloc works e (printed e ds) ds (r.1.tail + 1) r.1 0 es m
          (record { holds = holds; inside = omega arith; ahead = refl }) h (omega (arith, t)) kept)

puts_sorted : (ds es : Dict (List ℕ)) → IsSorted (es ++ ds) → puts ds es ≡ es ++ ds
puts_sorted [] es s = sym (append-nil es)
puts_sorted (d ∷ ds) es s =
    ap (puts ds) (insert_last d.0 d.1 es (below es s))
    ∙ puts_sorted ds (es ++ d ∷ []) (subst IsSorted (sym (append_assoc es (d ∷ []) ds)) s)
    ∙ append_assoc es (d ∷ []) ds
  where
    below :
        (es : Dict (List ℕ)) → IsSorted (es ++ (d ∷ ds)) → All (λ f. order f.0 d.0 ≡ Ordering.lt) es
    below [] s = tt
    below (f ∷ fs) s = ((All-append_right _ fs (d ∷ ds) s.0).0, below fs s.1)

-- GetStream, and Parse of what it wrote into another map.
unfoldable pub restored : Malloc → Bool → Dict Buffer → Outcome (Dict Buffer)
unfolding get_stream parse
restored malloc e m = do
  (m', stream) ← get_stream malloc e m []
  parse malloc e (some stream) (length stream) []

-- With memory left, on a map of sound buffers of bytes in the order of its keys, where no key has
-- a bar or a NUL and no value has a bar as it is stored, what GetStream writes, in base 64 or as
-- it is, Parse reads into an empty map with the same keys and the same contents.
pub restored-Keeps :
    (malloc : Malloc) (e : Bool) (es : Dict (List ℕ)) (m : Dict Buffer)
    → Allocates malloc
    → IsSorted es
    → All (IsEntry e) es
    → Keeps es m
    → Returns (Keeps es) (restored malloc e m)
unfolding restored
restored-Keeps malloc e es m works s h kept =
    Returns-bind (λ r. Keeps es r.0 × (r.1 ≡ printed e es)) _ (get_stream malloc e m []) _
      (get_stream-Prints malloc works e es m [] kept (All-map _ _ es (λ d k. k.are_bytes) h))
      (λ r hr.
        subst (λ ds. Returns (Keeps ds) (parse malloc e (some r.1) (length r.1) []))
          (puts_sorted es [] s)
          (parse-Keeps malloc e es [] r.1 (length r.1) [] works h (take-all r.1 ∙ hr.1)
            (omega arith) (record { same = refl; valid = tt })))
