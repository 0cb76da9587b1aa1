-- ===== src/Buffer/Copy.antt =====
-- The contents of one buffer, read or copied into another.
use msg_courier.Prelude.{
  ℕ, ◌+◌, ◌≤◌, ◌≡◌, refl, sym, ap, ◌∙◌, subst, Option, none, some, List, take, drop, length,
  length-take, length-drop, take-take, take-drop, arith,
}
use msg_courier.Memory.{done, Block, Malloc, Allocates, Returns, Returns-map, read}
use msg_courier.Memory.Laws.{read-done}
use msg_courier.Buffer.{Buffer, count, content, memory, reset, make_string, terminate, replace_with}
use msg_courier.Buffer.Append.{
  Holds, closed, make_string-closed, closed-Holds, replace_with-Holds, content-zero,
}
use msg_courier.Buffer.Insert.{memory_lem}
use msg_courier.Buffer.Valid.{Held, IsValid, reset-IsValid}

pub length-bytes : (b : Buffer) (xs : List ℕ) → Holds b xs → length xs ≡ b.tail
length-bytes b xs h =
    let m = memory_lem b h.valid in
    ap length (sym h.stands_for) ∙ ap length m.shows ∙ length-take b.tail (memory b.block) m.within

-- A part of the contents, where it stands in memory.
pub slice_lem :
    (b : Buffer) (xs : List ℕ) (i n : ℕ)
    → Holds b xs
    → i + n ≤ length xs
    → take n (drop i (memory b.block)) ≡ take n (drop i xs)
slice_lem b xs i n h le =
    let m = memory_lem b h.valid in
    let t = length-bytes b xs h in
    take-drop n i (memory b.block)
    ∙ ap (drop i) (
        sym (take-take (i + n) b.tail (memory b.block) (omega (arith, t, le)))
        ∙ ap (take (i + n)) (sym m.shows ∙ h.stands_for))
    ∙ sym (take-drop n i xs)

pub read-slice :
    (b : Buffer) (xs : List ℕ) (i n : ℕ)
    → Holds b xs
    → i + n ≤ length xs
    → read (memory b.block) i n ≡ done (take n (drop i xs))
read-slice b xs i n h le =
    let m = memory_lem b h.valid in
    let t = length-bytes b xs h in
    read-done (memory b.block) i n (omega (arith, m.within, t, le))
    ∙ ap done (slice_lem b xs i n h le)

-- The bytes at a place of the contents, as a source of ReplaceWith.
pub room_lem :
    (b : Buffer) (xs : List ℕ) (i n : ℕ)
    → Holds b xs
    → i + n ≤ length xs
    → n ≤ length (drop i (memory b.block))
room_lem b xs i n h le =
    let m = memory_lem b h.valid in
    omega (arith, m.within, length-bytes b xs h, le, length-drop i (memory b.block))

make_string-none : (b : Buffer) → b.block ≡ none → make_string b ≡ done b
unfolding make_string
make_string-none b e = ap (terminate b) e

-- cstr and c_str, on a sound buffer with a block or without.
pub make_string-keeps :
    (b : Buffer) (xs : List ℕ) → Holds b xs → Returns (λ b'. Holds b' xs) (make_string b)
make_string-keeps b xs h = by_block b.block refl h.valid.held
  where
    by_block :
        (blk : Option Block)
        → b.block ≡ blk
        → Held blk b.size b.tail
        → Returns (λ b'. Holds b' xs) (make_string b)
    by_block none e held = rw (make_string-none b e) h
    by_block (some m) e held = rw (make_string-closed b m e held.0 held.1) (
        subst (Holds (closed b m)) (ap (λ blk. content blk b.tail) (sym e) ∙ h.stands_for)
          (closed-Holds b m held.0 held.1))

module _ (malloc : Malloc) (works : Allocates malloc) (b : Buffer) (xs : List ℕ) (h : Holds b xs)
    (into : Buffer) (v : IsValid into) where
  abbrev Copies : Option Block → Type 0
  Copies blk = Returns (λ r. Holds r.1 xs) (replace_with malloc blk (count b.tail) into)

  by_block : (blk : Option Block) → b.block ≡ blk → Copies blk
  unfolding replace_with reset
  by_block none e = record {
    valid = unfold reset in reset-IsValid into v;
    stands_for = content-zero into.block ∙ sym (ap (λ blk. content blk b.tail) e) ∙ h.stands_for;
  }
  by_block (some m) e =
      let s = memory_lem b h.valid in
      Returns-map _ _ (replace_with malloc (some m) (count b.tail) into)
        (replace_with-Holds malloc works m b.tail into v
          (omega (arith, s.within, ap (λ blk. length (memory blk)) e)))
        (λ r k.
          subst (Holds r.1)
            (ap (λ blk. take b.tail (memory blk)) (sym e) ∙ sym s.shows ∙ h.stands_for) k.1)

  -- ReplaceWith takes over the contents of another buffer.
  pub copy-Holds : Copies b.block
  copy-Holds = by_block b.block refl
