-- ===== src/Buffer/Grow.antt =====
-- SetBufferSize makes room for more than it is asked for, and keeps what the buffer holds.
use msg_courier.Prelude.{
  ℕ, ◌+◌, ◌≤◌, ◌<◌, ◌≡◌, refl, sym, ◌∙◌, ap, ◌⊎◌, inl, inr, Option, none, some, arith, leb,
  Bool-cases, leb→le, length, take, length-take, take-take,
}
use msg_courier.Memory.{done, Block, Malloc, Allocates, overwrite}
use msg_courier.Memory.Laws.{
  allocate-done, length-overwrite, take-overwrite_start, read_start-done, write_start-done,
}
use msg_courier.Buffer.{
  Buffer, content, bytes, adjust_size, reallocate, size_block, set_buffer_size,
}
use msg_courier.Buffer.Valid.{Held, IsValid}

-- A size asked for grows by at least a long.
pub adjust_size-grows : (b : Buffer) (n : ℕ) → n + 8 ≤ adjust_size b n
unfolding adjust_size
adjust_size-grows b n = ground arith

-- `after` holds what `before` held, with room for more than n bytes.
pub record Grown (before : Buffer) (n : ℕ) (after : Buffer) : Type 0 where
  pub room : n < after.size
  pub held : Block
  pub at : after.block ≡ some held
  pub fits : after.size ≤ length held
  pub inside : after.tail < after.size
  pub by_a_long : (after.size ≡ before.size) ⊎ (n + 8 ≤ after.size)
  pub same_tail : after.tail ≡ before.tail
  pub same_bytes : take before.tail held ≡ bytes before

module _ (malloc : Malloc) (works : Allocates malloc) (n : ℕ) (b : Buffer) where
  -- The bytes below the tail survive the copy into a fresh block.
  copied_bytes :
      (m fresh : Block)
      → b.size ≤ length m
      → b.tail < b.size
      → take b.tail (overwrite fresh 0 (take b.size m)) ≡ take b.tail m
  copied_bytes m fresh fits inside =
      sym (take-take b.tail b.size _ (omega arith))
      ∙ ap (take b.tail)
          (take-overwrite_start fresh b.size (take b.size m) (length-take b.size m fits))
      ∙ take-take b.tail b.size m (omega arith)

  reallocate_lem :
      (m : Block)
      → b.block ≡ some m
      → b.size ≤ length m
      → b.tail < b.size
      → b.size ≤ n
      → (b' : Buffer) × (reallocate malloc n m b ≡ done b') × Grown b n b'
  unfolding reallocate
  reallocate_lem m e fits inside larger =
      let (fresh, got, size) = allocate-done malloc (adjust_size b n) works in
      let full = length-take b.size m fits in
      let room = adjust_size-grows b n in
      let copied = write_start-done fresh (take b.size m) (omega arith) in
      (
        record b { block = some (overwrite fresh 0 (take b.size m)); size = adjust_size b n },
        rw (got, read_start-done m b.size fits, copied, reallocate),
        record {
          room = omega arith;
          held = overwrite fresh 0 (take b.size m);
          at = refl;
          fits = omega (arith, length-overwrite fresh 0 (take b.size m));
          inside = omega arith;
          by_a_long = inr (adjust_size-grows b n);
          same_tail = refl;
          same_bytes = copied_bytes m fresh fits inside ∙ sym (ap (λ blk. content blk b.tail) e);
        },
      )

  size_block-Grown :
      (blk : Option Block)
      → b.block ≡ blk
      → Held blk b.size b.tail
      → (b' : Buffer) × (size_block malloc n b blk ≡ done b') × Grown b n b'
  unfolding size_block
  size_block-Grown none e (_, empty) =
      let (fresh, got, size) = allocate-done malloc (adjust_size b n) works in
      let room = adjust_size-grows b n in
      (
        record b { block = some fresh; size = adjust_size b n; tail = 0 },
        rw got,
        record {
          room = omega arith;
          held = fresh;
          at = refl;
          fits = omega arith;
          inside = omega arith;
          by_a_long = inr (adjust_size-grows b n);
          same_tail = sym empty;
          same_bytes = ap (λ k. take k fresh) empty ∙ sym (ap (λ blk. content blk b.tail) e);
        },
      )
  size_block-Grown (some m) e (fits, inside) = elim (Bool-cases (leb b.size n)) [
    | inl larger ↦
        let (b', ran, grown) = reallocate_lem m e fits inside (leb→le b.size n larger) in
        (b', rw larger ran, grown)
    | inr smaller ↦ (
      b,
      rw smaller,
      record {
        room = ground arith;
        held = m;
        at = e;
        fits = fits;
        inside = inside;
        by_a_long = inl refl;
        same_tail = refl;
        same_bytes = sym (ap (λ blk. content blk b.tail) e);
      },
    )
  ]

  -- With memory left, on a sound buffer SetBufferSize returns, with room for more than n bytes and
  -- the same contents.
  pub set_buffer_size-Grown :
      IsValid b → (b' : Buffer) × (set_buffer_size malloc n b ≡ done b') × Grown b n b'
  unfolding set_buffer_size
  set_buffer_size-Grown v = size_block-Grown b.block refl v.held
