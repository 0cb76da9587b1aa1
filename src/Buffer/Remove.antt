-- ===== src/Buffer/Remove.antt =====
-- Remove: the region inside the contents goes; a region that only fits the block is not refused.
use msg_courier.Prelude.{
  ℕ, ◌+◌, ◌-◌, ◌≤◌, ◌<◌, ◌≡◌, refl, sym, ◌∙◌, ap, inl, inr, false, some, List, [], ◌++◌, append-nil,
  arith, ltb, ◌==◌, Bool-cases, le→ltb, length, take, drop, length-take, take-take, take-drop,
  drop-all,
}
use msg_courier.Memory.{done, fault, Returns, overwrite}
use msg_courier.Memory.Laws.{
  span-done, span-fault, length-slice, read-done, write-done, length-overwrite, take-overwrite,
}
use msg_courier.Buffer.{Buffer, no_error, content, bytes, memory, close_gap, remove}
use msg_courier.Buffer.Valid.{IsValid, shrink-Held, inside-Held}
use msg_courier.Buffer.Append.{Holds}
use msg_courier.Buffer.Insert.{memory_lem}

module _ (i n : ℕ) (b : Buffer) (v : IsValid b) where
  abbrev kept : List ℕ
  kept = take i (bytes b) ++ drop (n + i) (bytes b)

  module _ (some_bytes : 0 < n) (inside : i + n ≤ b.tail) where
    below : b.tail < b.size
    below = inside-Held b.block b.size b.tail v.held (omega arith)

    -- What is kept, in terms of the memory.
    kept_lem : kept ≡ take i (memory b.block) ++ drop (n + i) (take b.tail (memory b.block))
    kept_lem =
        let m = memory_lem b v in
        ap (λ xs. take i xs ++ drop (n + i) xs) m.shows
        ∙ ap (λ xs. xs ++ drop (n + i) (take b.tail (memory b.block)))
            (take-take i b.tail (memory b.block) (omega arith))

    -- Nothing stands behind the region.
    close_gap_end : b.tail ≡ n + i → Holds (record b { tail = b.tail - n }) kept
    close_gap_end e =
        let old = memory b.block in
        let m = memory_lem b v in
        let short : IsValid (record b { tail = b.tail - n }) = record {
          held = shrink-Held b.block b.size b.tail (b.tail - n) v.held (omega arith);
        } in
        let nothing : drop (n + i) (take b.tail old) ≡ [] =
          drop-all (n + i) (take b.tail old) (omega (arith, length-take b.tail old m.within)) in
        record {
          valid = short;
          stands_for =
              (memory_lem (record b { tail = b.tail - n }) short).shows
              ∙ ap (λ k. take k old) {y = i} (omega arith)
              ∙ sym (append-nil (take i old))
              ∙ ap (◌++◌ (take i old)) (sym nothing)
              ∙ sym kept_lem;
        }

    close_gap-Holds :
        (b' : Buffer) × (close_gap (n + i) i b ≡ done b')
        × Holds (record b' { tail = b'.tail - n }) kept
    unfolding close_gap
    close_gap-Holds = elim (Bool-cases (b.tail == (n + i))) [
      | inl here ↦ (b, rw here, close_gap_end (ground arith))
      | inr more ↦
          let old = memory b.block in
          let m = memory_lem b v in
          let k = b.tail - (n + i) in
          let less : n + i < b.tail = ground arith in
          let moved = take k (drop (n + i) old) in
          let len : length moved ≡ k = length-slice old (n + i) k (omega (arith, m.within)) in
          let filled = overwrite old i moved in
          let size = length-overwrite old i moved (omega (arith, m.within)) in
          (
            record b { block = some filled },
            rw (
              more,
              span-done (n + i) b.tail (omega arith),
              read-done old (n + i) k (omega (arith, m.within)),
              write-done old i moved (omega (arith, m.within)),
            ),
            record {
              valid = record { held = (omega (arith, m.fits), omega (arith, below)) };
              stands_for =
                  ap (λ t. take t filled) {y = i + k} (omega arith)
                  ∙ take-overwrite old i k moved len (omega (arith, m.within))
                  ∙ ap (◌++◌ (take i old)) (
                      take-drop k (n + i) old
                      ∙ ap (λ t. drop (n + i) (take t old)) {y = b.tail} (omega arith))
                  ∙ sym kept_lem;
            },
          )
    ]

    -- On a sound buffer Remove of a stretch of the contents that is not empty returns
    -- BUFFER_NO_ERROR, and leaves a sound buffer with the bytes before it and behind it.
    pub remove-Holds : Returns (λ r. (r.0 ≡ no_error) × Holds r.1 kept) (remove i n b)
    unfolding remove
    remove-Holds =
        let (b', ran, holds) = close_gap-Holds in
        let full : (b.tail == 0) ≡ false = ground arith in
        let fits : ltb b.size n ≡ false = le→ltb b.size n (omega (arith, below)) in
        let given : (n == 0) ≡ false = ground arith in
        let region : ltb b.size (n + i) ≡ false = le→ltb b.size (n + i) (omega (arith, below)) in
        rw (full, fits, given, region, ran) (refl, holds)

  -- On a sound buffer with contents, a region that ends behind the contents, yet in the block,
  -- passes the test on m_iBufferSize, and the count of the memmove is negative.
  pub remove-fault : 0 < n → 0 < b.tail → b.tail < n + i → n + i ≤ b.size → remove i n b ≡ fault
  unfolding remove close_gap
  remove-fault some_bytes content over inside = ground (arith, span-fault (n + i) b.tail)
