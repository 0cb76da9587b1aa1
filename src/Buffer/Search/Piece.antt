-- ===== src/Buffer/Search/Piece.antt =====
-- FindChar at a piece of the contents that ends with the character, and at their end.
use msg_courier.Prelude.{
  ℕ, zero, suc, ◌+◌, ◌-◌, ◌≤◌, ◌<◌, ◌≡◌, refl, sym, ap, ◌∙◌, true, false, none, some, List, [], ◌∷◌,
  ◌++◌, append_assoc, ◌==◌, All, arith, drop, take-append-drop, length, length-append, length-drop,
  get_elem?,
}
use msg_courier.Memory.{done, Block}
use msg_courier.Buffer.{Buffer, memory, find_from, find_char}
use msg_courier.Buffer.Append.{Holds}
use msg_courier.Buffer.Copy.{length-bytes}
use msg_courier.Buffer.Insert.{memory_lem}
use msg_courier.Buffer.Search.Exact.{drop-append_le}

drop_head :
    (m r : Block) (i c : ℕ) → drop i m ≡ c ∷ r → (get_elem? m i ≡ some c) × (drop (i + 1) m ≡ r)
drop_head [] r zero c e = cc
drop_head [] r (suc i) c e = cc
drop_head (x ∷ m) r zero c e = (cc, cc)
drop_head (x ∷ m) r (suc i) c e =
    let next : suc i + 1 ≡ suc (i + 1) = omega arith in
    let h = drop_head m r i c e in (h.0, rw next h.1)

find_from-piece :
    (m : Block) (ch i rounds : ℕ) (piece rest : List ℕ)
    → drop i m ≡ piece ++ (ch ∷ rest)
    → All (λ c. ¬ (c ≡ ch)) piece
    → length piece < rounds
    → find_from m ch i rounds ≡ done (some (i + length piece))
unfolding find_from
find_from-piece m ch i zero piece rest e h lt = absurd (omega arith)
find_from-piece m ch i (suc rounds) [] rest e h lt =
    let (at, next) = drop_head m rest i ch e in
    let same : (ch == ch) ≡ true = ground arith in
    let here : i + 0 ≡ i = omega arith in rw here (rw (at, find_from) (rw same refl))
find_from-piece m ch i (suc rounds) (c ∷ piece) rest e h lt =
    let (at, next) = drop_head m (piece ++ (ch ∷ rest)) i c e in
    let no = h.0 in
    let other : (c == ch) ≡ false = ground arith in
    rw (at, find_from)
      (rw other (
        find_from-piece m ch (i + 1) rounds piece rest next h.1 (omega arith)
        ∙ ap (λ k. done (some k)) (omega arith)))

pub find_char-piece :
    (b : Buffer) (xs : List ℕ) (ch start : ℕ) (piece rest : List ℕ)
    → Holds b xs
    → start ≤ length xs
    → drop start xs ≡ piece ++ (ch ∷ rest)
    → All (λ c. ¬ (c ≡ ch)) piece
    → find_char ch start b ≡ done (some (start + length piece))
unfolding find_char
find_char-piece b xs ch start piece rest holds le e h =
    let m = memory_lem b holds.valid in
    let t = length-bytes b xs holds in
    let whole =
      sym (take-append-drop b.tail (memory b.block))
      ∙ ap (λ ys. ys ++ drop b.tail (memory b.block)) (sym m.shows ∙ holds.stands_for) in
    let from =
      ap (drop start) whole
      ∙ drop-append_le start xs (drop b.tail (memory b.block)) le
      ∙ ap (λ ys. ys ++ drop b.tail (memory b.block)) e
      ∙ append_assoc piece (ch ∷ rest) (drop b.tail (memory b.block)) in
    find_from-piece (memory b.block) ch start (b.tail - start) piece
      (rest ++ drop b.tail (memory b.block)) from h
      (omega (arith, t, length-drop start xs, ap length e, length-append piece (ch ∷ rest)))

pub find_char-end : (b : Buffer) (ch start : ℕ) → b.tail ≤ start → find_char ch start b ≡ done none
unfolding find_char find_from
find_char-end b ch start h = let z : b.tail - start ≡ 0 = omega arith in rw z refl
