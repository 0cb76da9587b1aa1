-- ===== src/KeyValue/Pieces.antt =====
-- The pieces of a stream, up to the bar behind each.
use msg_courier.Prelude.{
  ℕ, zero, suc, ◌+◌, ◌-◌, ◌≤◌, ◌≡◌, refl, sym, ap, ◌∙◌, Bool, true, List, [], ◌∷◌, ◌++◌, append-nil,
  All, arith, take, drop, length, length-append, length-drop, take-append_left,
}
use msg_courier.Buffer.{Buffer}
use msg_courier.Buffer.Append.{Holds}
use msg_courier.Buffer.Search.Exact.{c_str, c_str-append}
use msg_courier.Base64.Letters.{reference-bar_free}
use msg_courier.Base64.Reference.{IsByte}
use msg_courier.Dict.{Dict, insert}
use msg_courier.HeaderExtract.Lines.{Lacks}
use msg_courier.KeyValue.{bar}
use msg_courier.KeyValue.Stream.{coded}

-- A key without a bar or a NUL, and a value of bytes, without a bar if it is stored as it is.
pub record IsEntry (e : Bool) (d : List ℕ × List ℕ) : Type 0 where
  pub key_free : Lacks bar d.0 × Lacks 0 d.0
  pub value_free : Lacks bar (coded e d.1)
  pub are_bytes : All IsByte d.1

-- In base 64 any bytes will do.
pub encoded-IsEntry : (k v : List ℕ) → Lacks bar k → Lacks 0 k → All IsByte v → IsEntry true (k, v)
unfolding coded
encoded-IsEntry k v h z are_bytes = record {
  key_free = (h, z);
  value_free = reference-bar_free v are_bytes;
  are_bytes = are_bytes;
}

pub c_str_lem : (k : List ℕ) → Lacks 0 k → c_str k ≡ k
c_str_lem k h = ap c_str (sym (append-nil k)) ∙ c_str-append k [] h ∙ append-nil k

-- The entries of a stream, put in one after the other: of two with one key the last stays.
abbrev pub puts : Dict (List ℕ) → Dict (List ℕ) → Dict (List ℕ)
puts [] es = es
puts (d ∷ ds) es = puts ds (insert d.0 d.1 es)

-- Behind the bytes that have been read stand the others.
pub record At (b : Buffer) (xs : List ℕ) (mark : ℕ) (left : List ℕ) : Type 0 where
  pub holds : Holds b xs
  pub inside : mark ≤ length xs
  pub ahead : drop mark xs ≡ left

drop-nil : (i : ℕ) → drop {A = ℕ} i [] ≡ []
drop-nil zero = refl
drop-nil (suc i) = refl

drop-drop : (i j : ℕ) (xs : List ℕ) → drop (i + j) xs ≡ drop j (drop i xs)
drop-drop zero j xs = ap (λ k. drop k xs) (omega arith)
drop-drop (suc i) j [] = drop-nil (suc i + j) ∙ sym (drop-nil j)
drop-drop (suc i) j (x ∷ xs) =
    let e : suc i + j ≡ suc (i + j) = omega arith in rw e (drop-drop i j xs)

-- Past a piece and the bar behind it.
pub past :
    (b b' : Buffer) (xs : List ℕ) (mark : ℕ) (piece rest : List ℕ)
    → At b xs mark (piece ++ (bar ∷ rest))
    → Holds b' xs
    → At b' xs (mark + length piece + 1) rest
past b b' xs mark piece rest a h = record {
  holds = h;
  inside =
      omega
        (arith, a.inside, ap length a.ahead, length-drop mark xs, length-append piece (bar ∷ rest));
  ahead =
      ap (λ k. drop k xs) (omega arith)
      ∙ drop-drop mark (length piece + 1) xs
      ∙ ap (drop (length piece + 1)) a.ahead
      ∙ behind piece;
}
  where
    behind : (ys : List ℕ) → drop (length ys + 1) (ys ++ (bar ∷ rest)) ≡ rest
    behind [] = refl
    behind (y ∷ ys) =
        let e : suc (length ys) + 1 ≡ suc (length ys + 1) = omega arith in rw e (behind ys)

pub piece_lem :
    (b : Buffer) (xs : List ℕ) (mark : ℕ) (piece rest : List ℕ)
    → At b xs mark (piece ++ (bar ∷ rest))
    → (mark + length piece ≤ length xs) × (take (length piece) (drop mark xs) ≡ piece)
piece_lem b xs mark piece rest a = (
  omega (arith, a.inside, ap length a.ahead, length-drop mark xs, length-append piece (bar ∷ rest)),
  ap (take (length piece)) a.ahead ∙ take-append_left (length piece) piece (bar ∷ rest) refl,
)

pub past_mark : (mark n : ℕ) → mark + n - mark ≡ n
past_mark mark n = omega arith
