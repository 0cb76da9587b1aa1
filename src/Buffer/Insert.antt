-- ===== src/Buffer/Insert.antt =====
-- Insert: the new bytes stand between what was before the index and what was behind it.
use msg_courier.Prelude.{
  ℕ, zero, suc, ◌+◌, ◌-◌, ◌≤◌, ◌<◌, ◌≡◌, refl, sym, ◌∙◌, ap, ap₂, inl, inr, false, Option, none,
  some, List, [], ◌++◌, append_assoc, arith, ltb, ◌==◌, Bool-cases, length, take, drop, length-take,
  length-append, take-take, take-drop, take-append_left, drop-append_left,
}
use msg_courier.Memory.{done, Block, Malloc, Allocates, Returns, overwrite}
use msg_courier.Memory.Laws.{
  allocate-done, span-done, length-slice, read-done, write-done, read_start-done, write_start-done,
  length-overwrite, take-overwrite_below,
}
use msg_courier.Buffer.{
  Buffer, adjust_size, copy_front, content, bytes, memory, Len, resolve, make_string,
  insert_realloc, insert_in_place, insert,
}
use msg_courier.Buffer.Valid.{Held, IsValid}
use msg_courier.Buffer.Grow.{adjust_size-grows}
use msg_courier.Buffer.Append.{Holds, make_string-Holds}

-- A write behind a gap, then one that fills the gap.
overwrite_twice :
    (m : Block) (i n : ℕ) (src rest : List ℕ)
    → length src ≡ n
    → i + n + length rest ≤ length m
    → (end : List ℕ) × (overwrite (overwrite m (i + n) rest) i src
        ≡ take i m ++ (src ++ (rest ++ end)))
overwrite_twice m i n src rest l h = (
  drop (i + n + length rest) m,
  ap₂ (λ xs ys. xs ++ (src ++ ys))
      (take-overwrite_below m i (i + n) rest (omega arith) (omega arith))
      (ap (λ k. drop (i + k) (overwrite m (i + n) rest)) l
        ∙ drop-append_left (i + n) (take (i + n) m) _ (length-take (i + n) m (omega arith))),
)

-- Three pieces in front of the rest of a block.
take_pieces :
    (xs ys zs end : List ℕ) (n : ℕ)
    → length xs + length ys + length zs ≡ n
    → take n (xs ++ (ys ++ (zs ++ end))) ≡ xs ++ (ys ++ zs)
take_pieces xs ys zs end n h =
    ap (take n) regroup
    ∙ take-append_left n (xs ++ (ys ++ zs)) end
        (omega (arith, length-append xs (ys ++ zs), length-append ys zs))
  where
    regroup : xs ++ (ys ++ (zs ++ end)) ≡ (xs ++ (ys ++ zs)) ++ end
    regroup = simp append_assoc

-- Whatever stood before the index in the fresh block, the old bytes replace it.
copy_front_lem :
    (i : ℕ) (old fresh m tail : List ℕ)
    → i ≤ length old
    → i ≤ length fresh
    → m ≡ take i fresh ++ tail
    → (m' : Block) × (copy_front i old m ≡ done m')
      × (length m' ≡ length m)
      × (m' ≡ take i old ++ tail)
unfolding copy_front
copy_front_lem zero old fresh m tail h k e = (m, refl, refl, e)
copy_front_lem (suc j) old fresh m tail h k e =
    let nonzero : (suc j == 0) ≡ false = ground arith in
    let head = take (suc j) old in
    let len : length head ≡ suc j = length-take (suc j) old h in
    let room : length head ≤ length m =
      omega (
        arith,
        ap length e,
        length-append (take (suc j) fresh) tail,
        length-take (suc j) fresh k,
      ) in
    (
      overwrite m 0 head,
      rw (nonzero, read_start-done old (suc j) h, write_start-done m head room),
      length-overwrite m 0 head (omega arith),
      ap (λ x. head ++ x)
          (ap (λ x. drop x m) {y = suc j} (omega arith)
            ∙ ap (drop (suc j)) e
            ∙ drop-append_left (suc j) (take (suc j) fresh) tail (length-take (suc j) fresh k)),
    )

-- The memory of a sound buffer.
pub record InMemory (b : Buffer) : Type 0 where
  pub fits : b.size ≤ length (memory b.block)
  pub within : b.tail ≤ length (memory b.block)
  pub shows : bytes b ≡ take b.tail (memory b.block)

block-InMemory :
    (blk : Option Block) (size tail : ℕ)
    → Held blk size tail
    → (size ≤ length (memory blk))
      × (tail ≤ length (memory blk))
      × (content blk tail ≡ take tail (memory blk))
block-InMemory none size tail (a, e) = (omega arith, omega arith, sym (ap (λ k. take k []) e))
block-InMemory (some m) size tail (fits, inside) = (fits, omega arith, refl)

pub memory_lem : (b : Buffer) → IsValid b → InMemory b
memory_lem b v =
    let (f, w, s) = block-InMemory b.block b.size b.tail v.held in
    record { fits = f; within = w; shows = s }

module _ (i : ℕ) (p : Block) (n : ℕ) (b : Buffer) (v : IsValid b) (long : n ≤ length p)
    (low : i ≤ b.tail) where
  -- The old bytes before and behind the index, and the new ones.
  abbrev front : List ℕ
  front = take i (memory b.block)

  abbrev rest : List ℕ
  rest = take (b.tail - i) (drop i (memory b.block))

  abbrev spliced : List ℕ
  spliced = take i (bytes b) ++ (take n p ++ drop i (bytes b))

  lengths : (length front ≡ i) × (length rest ≡ b.tail - i) × (length (take n p) ≡ n)
  lengths =
      let m = memory_lem b v in
      (
        length-take i (memory b.block) (omega (arith, m.within)),
        length-slice (memory b.block) i (b.tail - i) (omega (arith, m.within)),
        length-take n p long,
      )

  pieces : front ++ (take n p ++ rest) ≡ spliced
  pieces =
      let m = memory_lem b v in
      let whole : i + (b.tail - i) ≡ b.tail = omega arith in
      let old_front : front ≡ take i (bytes b) =
        sym (take-take i b.tail (memory b.block) low) ∙ ap (take i) (sym m.shows) in
      let old_rest : rest ≡ drop i (bytes b) =
        take-drop (b.tail - i) i (memory b.block)
        ∙ ap (λ k. drop i (take k (memory b.block))) whole
        ∙ ap (drop i) (sym m.shows) in
      ap₂ (λ xs ys. xs ++ (take n p ++ ys)) old_front old_rest

  -- The block that either way of inserting leaves shows the spliced bytes up to the new tail.
  pieces_shown : (end : List ℕ) → take (b.tail + n) (front ++ (take n p ++ (rest ++ end))) ≡ spliced
  pieces_shown end =
      take_pieces front (take n p) rest end (b.tail + n) (omega (arith, lengths)) ∙ pieces

  -- What Insert has before it moves the tail.
  record Filled (b' : Buffer) : Type 0 where
    held : Block
    at : b'.block ≡ some held
    fits : b'.size ≤ length held
    same_tail : b'.tail ≡ b.tail
    room : b.tail + n < b'.size
    shows : take (b.tail + n) held ≡ spliced

  insert_in_place_lem :
      n + b.tail + 1 ≤ b.size → (b' : Buffer) × (insert_in_place i p n b ≡ done b') × Filled b'
  unfolding insert_in_place
  insert_in_place_lem room =
      let old = memory b.block in
      let m = memory_lem b v in
      let (lf, lr, ls) = lengths in
      let moved = overwrite old (i + n) rest in
      let filled = overwrite moved i (take n p) in
      let (end, shape) = overwrite_twice old i n (take n p) rest ls (omega (arith, m.fits)) in
      let length_moved = length-overwrite old (i + n) rest (omega (arith, m.fits)) in
      (
        record b { block = some filled },
        rw (
          span-done i b.tail low,
          read-done old i (b.tail - i) (omega (arith, m.within)),
          write-done old (i + n) rest (omega (arith, m.fits)),
          read_start-done p n long,
          write-done moved i (take n p) (omega (arith, m.fits)),
        ),
        record {
          held = filled;
          at = refl;
          fits = omega (arith, m.fits, length-overwrite moved i (take n p) (omega (arith, m.fits)));
          same_tail = refl;
          room = omega arith;
          shows = ap (take (b.tail + n)) shape ∙ pieces_shown end;
        },
      )

  -- MakeString closes the buffer at its new tail.
  close_spliced :
      (b' : Buffer)
      → Filled b'
      → Returns (λ r. Holds r spliced) (make_string (record b' { tail = b'.tail + n }))
  close_spliced b' f =
      let (r, ran, holds) =
        make_string-Holds (record b' { tail = b'.tail + n }) f.held f.at f.fits
          (omega (arith, f.same_tail, f.room)) in
      rw ran (record {
        valid = holds.valid;
        stands_for = holds.stands_for ∙ ap (λ k. take (k + n) f.held) f.same_tail ∙ f.shows;
      })

  module _ (malloc : Malloc) (works : Allocates malloc) where
    insert_realloc_lem : (b' : Buffer) × (insert_realloc malloc i p n b ≡ done b') × Filled b'
    unfolding insert_realloc
    insert_realloc_lem =
        let old = memory b.block in
        let m = memory_lem b v in
        let (lf, lr, ls) = lengths in
        let new_size = adjust_size b (n + b.tail + 1) in
        let large = adjust_size-grows b (n + b.tail + 1) in
        let (fresh, got, size) = allocate-done malloc (new_size + 1) works in
        let moved = overwrite fresh (i + n) rest in
        let filled = overwrite moved i (take n p) in
        let (end, shape) = overwrite_twice fresh i n (take n p) rest ls (omega arith) in
        let length_moved = length-overwrite fresh (i + n) rest (omega arith) in
        let length_filled = length-overwrite moved i (take n p) (omega arith) in
        let (whole, ran, length_whole, contents) =
          copy_front_lem i old fresh filled (take n p ++ (rest ++ end)) (omega (arith, m.within))
            (omega arith) shape in
        (
          record b { block = some whole; size = new_size },
          rw (
            got,
            span-done i b.tail low,
            read-done old i (b.tail - i) (omega (arith, m.within)),
            write-done fresh (i + n) rest (omega arith),
            read_start-done p n long,
            write-done moved i (take n p) (omega arith),
            ran,
          ),
          record {
            held = whole;
            at = refl;
            fits = omega arith;
            same_tail = refl;
            room = omega arith;
            shows = ap (take (b.tail + n)) contents ∙ pieces_shown end;
          },
        )

    -- With memory left, on a sound buffer Insert at an index up to the tail never leaves its
    -- memory: the buffer stays sound, and the first n bytes at pData stand between the old bytes
    -- before the index and those from it on.
    pub insert-Holds :
        (len : Len)
        → resolve p len ≡ done n
        → Returns (λ b'. Holds b' spliced) (insert malloc i p len b)
    unfolding insert
    insert-Holds len e = elim (Bool-cases (ltb b.size (n + b.tail + 1))) [
      | inl full ↦ let (b', ran, f) = insert_realloc_lem in rw (e, full, ran) (close_spliced b' f)
      | inr ample ↦
          let (b', ran, f) = insert_in_place_lem (ground arith) in
          rw (e, ample, ran) (close_spliced b' f)
    ]
