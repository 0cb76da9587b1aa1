-- ===== src/Buffer/Append.antt =====
-- Append and ReplaceWith: the bytes that they leave, and that they stay inside their memory.
use msg_courier.Prelude.{
  ℕ, zero, suc, ◌+◌, ◌≤◌, ◌<◌, ◌≡◌, refl, sym, subst, ◌∙◌, ap, inl, inr, false, Option, none, some,
  List, [], ◌∷◌, ◌++◌, append-nil, arith, leb, ◌==◌, Bool-cases, length, take, length-take,
}
use msg_courier.Memory.{done, Block, Malloc, Allocates, Returns, write, overwrite}
use msg_courier.Memory.Laws.{
  write-done, read_start-done, length-overwrite, take-overwrite, take-overwrite_below,
}
use msg_courier.Buffer.{
  Buffer, no_error, Len, count, to_nul, resolve, content, bytes, memory, terminate, make_string,
  ensure_room, append_bytes, append, replace_with, reset,
}
use msg_courier.Buffer.Valid.{Held, IsValid, reset-IsValid}
use msg_courier.Buffer.Grow.{Grown, set_buffer_size-Grown}

-- A sound buffer with given contents.
pub record Holds (b : Buffer) (xs : List ℕ) : Type 0 where
  pub valid : IsValid b
  pub stands_for : bytes b ≡ xs

-- The buffer after MakeString, and what the call is.
abbrev pub closed : Buffer → Block → Buffer
closed b m = record b { block = some (overwrite m b.tail (0 ∷ [])) }

pub make_string-closed :
    (b : Buffer) (m : Block)
    → b.block ≡ some m
    → b.size ≤ length m
    → b.tail < b.size
    → make_string b ≡ done (closed b m)
unfolding make_string
make_string-closed b m e fits inside =
    ap (terminate b) e ∙ rw (write-done m b.tail (0 ∷ []) (omega arith))

pub closed-Holds :
    (b : Buffer) (m : Block)
    → b.size ≤ length m
    → b.tail < b.size
    → Holds (closed b m) (take b.tail m)
closed-Holds b m fits inside = record {
  valid = record {
    held = (omega (arith, length-overwrite m b.tail (0 ∷ []) (omega arith)), inside);
  };
  stands_for = take-overwrite_below m b.tail b.tail (0 ∷ []) (omega arith) (omega arith);
}

-- MakeString writes the NUL behind the contents.
pub make_string-Holds :
    (b : Buffer) (m : Block)
    → b.block ≡ some m
    → b.size ≤ length m
    → b.tail < b.size
    → (b' : Buffer) × (make_string b ≡ done b') × Holds b' (take b.tail m)
make_string-Holds b m e fits inside =
    (closed b m, make_string-closed b m e fits inside, closed-Holds b m fits inside)

pub content-zero : (blk : Option Block) → content blk 0 ≡ []
content-zero none = refl
content-zero (some m) = refl

module _ (malloc : Malloc) (works : Allocates malloc) where
  -- A buffer that has room already is grown as it is.
  roomy-Grown :
      (n : ℕ) (b : Buffer) (blk : Option Block)
      → b.block ≡ blk
      → Held blk b.size b.tail
      → n < b.size
      → Grown b n b
  roomy-Grown n b none e h room = absurd (omega arith)
  roomy-Grown n b (some m) e (fits, inside) room = record {
    room = room;
    held = m;
    at = e;
    fits = fits;
    inside = inside;
    by_a_long = inl refl;
    same_tail = refl;
    same_bytes = sym (ap (λ blk. content blk b.tail) e);
  }

  make_room :
      (n : ℕ) (b : Buffer)
      → IsValid b
      → (g : Buffer) × (ensure_room malloc n b ≡ done g) × Grown b n g
  unfolding ensure_room
  make_room n b v = elim (Bool-cases (leb b.size n)) [
    | inl tight ↦
        let (g, ran, grown) = set_buffer_size-Grown malloc works n b v in (g, rw tight ran, grown)
    | inr ample ↦ (b, rw ample, roomy-Grown n b b.block refl v.held (ground arith))
  ]

  append_bytes-Holds :
      (p : Block) (n : ℕ) (b : Buffer)
      → IsValid b
      → n ≤ length p
      → (b' : Buffer) × (append_bytes malloc p n b ≡ done b') × Holds b' (bytes b ++ take n p)
  unfolding append_bytes
  append_bytes-Holds p n b v long =
      let (g, ran, grown) = make_room (n + b.tail) b v in
      let src = take n p in
      let len : length src ≡ n = length-take n p long in
      let same = grown.same_tail in
      let room = grown.room in
      let fits = grown.fits in
      let fill = overwrite grown.held g.tail src in
      let written : write (memory g.block) g.tail src ≡ done fill =
        ap (λ blk. write (memory blk) g.tail src) grown.at
        ∙ write-done grown.held g.tail src (omega arith) in
      let (b', ended, holds) =
        make_string-Holds (record g { block = some fill; tail = g.tail + n }) fill refl
          (omega (arith, length-overwrite grown.held g.tail src (omega arith))) (omega arith) in
      (
        b',
        rw (ran, read_start-done p n long, written) ended,
        record {
          valid = holds.valid;
          stands_for =
              holds.stands_for
              ∙ take-overwrite grown.held g.tail n src len (omega arith)
              ∙ ap (λ k. take k grown.held ++ src) same
              ∙ ap (λ xs. xs ++ src) grown.same_bytes;
        },
      )

  append_count :
      (p : Block) (n : ℕ) (b : Buffer)
      → IsValid b
      → n ≤ length p
      → Returns
          (λ r. (r.0 ≡ no_error) × Holds r.1 (bytes b ++ take n p))
          (append malloc (some p) (count n) b)
  unfolding append
  append_count p zero b v long =
      (refl, record { valid = v; stands_for = sym (append-nil (bytes b)) })
  append_count p (suc n) b v long =
      let (b', ran, holds) = append_bytes-Holds p (suc n) b v long in
      let nonzero : (suc n == 0) ≡ false = ground arith in rw (nonzero, ran) (refl, holds)

  -- With memory left, on a sound buffer Append returns BUFFER_NO_ERROR and never leaves its
  -- memory: the buffer stays sound, and its contents are followed by the iLen bytes at pData, up
  -- to the NUL if iLen is -1.
  pub append-Holds :
      (p : Block) (len : Len) (n : ℕ) (b : Buffer)
      → IsValid b
      → resolve p len ≡ done n
      → n ≤ length p
      → Returns
          (λ r. (r.0 ≡ no_error) × Holds r.1 (bytes b ++ take n p))
          (append malloc (some p) len b)
  unfolding append resolve
  append-Holds p (count m) n b v e long =
      let same : m ≡ n = ground arith in
      rw same (unfold append resolve in append_count p n b v long)
  append-Holds p to_nul n b v e long =
      let (b', ran, holds) = append_bytes-Holds p n b v long in rw (e, ran) (refl, holds)

  -- With memory left, on a sound buffer ReplaceWith returns BUFFER_NO_ERROR, and leaves a sound
  -- buffer with the n bytes at pData and nothing else.
  pub replace_with-Holds :
      (p : Block) (n : ℕ) (b : Buffer)
      → IsValid b
      → n ≤ length p
      → Returns
          (λ r. (r.0 ≡ no_error) × Holds r.1 (take n p))
          (replace_with malloc (some p) (count n) b)
  unfolding replace_with resolve reset
  replace_with-Holds p n b v long =
      subst
        (λ xs.
          Returns (λ r. (r.0 ≡ no_error) × Holds r.1 (xs ++ take n p))
            (append malloc (some p) (count n) (reset b)))
        (content-zero b.block) (append_count p n (reset b) (reset-IsValid b v) long)
