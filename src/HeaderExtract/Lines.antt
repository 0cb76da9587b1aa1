-- ===== src/HeaderExtract/Lines.antt =====
-- The loop over the lines of a header that is written with \r\n between its lines.
use msg_courier.Prelude.{
  ℕ, suc, ◌+◌, ◌≡◌, refl, ap, ap₂, ◌∙◌, false, none, List, [], ◌∷◌, ◌++◌, ◌==◌, drop, get_or,
  length, append-nil, append_assoc, take-append_left, drop-append_left, arith, All, All-append,
}
use msg_courier.RoutingTag.{find_first}
use msg_courier.RoutingTag.Parts.{find_first-append}
use msg_courier.Dict.{Dict, insert}
use msg_courier.HeaderExtract.{erased, put_split, put_line, lines, last_lines}

pub record Field : Type 0 where
  pub name : List ℕ
  pub value : List ℕ

abbrev pub Lacks : ℕ → List ℕ → Type 0
Lacks c xs = All (λ x. ¬ (x ≡ c)) xs

-- No colon in the name, and neither a \r nor a NUL in either part.
pub record IsField (f : Field) : Type 0 where
  pub colon_free : Lacks 58 f.name
  pub one_line : Lacks 13 f.name × Lacks 13 f.value
  pub nul_free : Lacks 0 f.name × Lacks 0 f.value

-- name: value
abbrev pub line_of : Field → List ℕ
line_of f = f.name ++ (58 ∷ (32 ∷ f.value))

-- Each field's line, with the \r\n that ends the line before.
unfoldable pub render : List Field → List ℕ
render [] = []
render (f ∷ fs) = 13 ∷ (10 ∷ (line_of f ++ render fs))

unfoldable pub puts : List Field → Dict (List ℕ) → Dict (List ℕ)
puts [] params = params
puts (f ∷ fs) params = puts fs (insert f.name f.value params)

find_first-none : (c : ℕ) (xs : List ℕ) → Lacks c xs → find_first c xs ≡ none
unfolding find_first
find_first-none c [] h = refl
find_first-none c (x ∷ xs) h =
    let no = h.0 in let e : (x == c) ≡ false = ground arith in rw (e, find_first-none c xs h.1)

get_or-append :
    (xs ys : List ℕ) (n i : ℕ) → length xs ≡ n → get_or (xs ++ ys) (n + i) 0 ≡ get_or ys i 0
get_or-append [] ys n i h = let e : n + i ≡ i = omega (arith, h) in rw e refl
get_or-append (x ∷ xs) ys n i h =
    let e : n + i ≡ suc (length xs + i) = omega (arith, h) in
    rw e (get_or-append xs ys (length xs) i refl)

drop-append : (xs ys : List ℕ) (n i : ℕ) → length xs ≡ n → drop (n + i) (xs ++ ys) ≡ drop i ys
drop-append [] ys n i h = let e : n + i ≡ i = omega (arith, h) in rw e refl
drop-append (x ∷ xs) ys n i h =
    let e : n + i ≡ suc (length xs + i) = omega (arith, h) in
    rw e (drop-append xs ys (length xs) i refl)

erased-line : (f : Field) → erased (length f.name) (line_of f) ≡ f.name ++ f.value
unfolding erased
erased-line f =
    let space : get_or (line_of f) (length f.name + 1) 0 ≡ 32 =
      get_or-append f.name (58 ∷ (32 ∷ f.value)) (length f.name) 1 refl in
    rw space (
      ap₂ ◌++◌ (take-append_left (length f.name) f.name (58 ∷ (32 ∷ f.value)) refl)
        (drop-append f.name (58 ∷ (32 ∷ f.value)) (length f.name) 2 refl))

pub put_line-field :
    (f : Field) (params : Dict (List ℕ))
    → IsField f
    → put_line (line_of f) params ≡ insert f.name f.value params
unfolding put_line put_split
put_line-field f params h =
    rw (find_first-append 58 f.name (32 ∷ f.value) h.colon_free, put_split)
      (rw (erased-line f) (
        ap₂ (λ k v. insert k v params) (take-append_left (length f.name) f.name f.value refl)
          (drop-append_left (length f.name) f.name f.value refl)))

pub put_line-other :
    (line : List ℕ) (params : Dict (List ℕ)) → Lacks 58 line → put_line line params ≡ params
unfolding put_line put_split
put_line-other line params h = rw (find_first-none 58 line h, put_split) refl

lines-char :
    (c : ℕ) (line rest : List ℕ) (params : Dict (List ℕ))
    → ¬ (c ≡ 13)
    → lines line (c ∷ rest) params ≡ lines (line ++ c ∷ []) rest params
unfolding lines
lines-char c line [] params h = let e : (c == 13) ≡ false = ground arith in rw e refl
lines-char c line (d ∷ rest) params h =
    let e : (c == 13) ≡ false = ground arith in rw (e, lines) refl

-- A line up to its \r\n.
pub lines-line :
    (line xs rest : List ℕ) (params : Dict (List ℕ))
    → Lacks 13 xs
    → lines line (xs ++ (13 ∷ (10 ∷ rest))) params ≡ lines [] rest (put_line (line ++ xs) params)
unfolding lines
lines-line line [] rest params h = rw (append-nil line) refl
lines-line line (x ∷ xs) rest params h =
    lines-char x line (xs ++ (13 ∷ (10 ∷ rest))) params h.0
    ∙ lines-line (line ++ x ∷ []) xs rest params h.1
    ∙ ap (λ l. lines [] rest (put_line l params)) (append_assoc line (x ∷ []) xs)

line-Lacks :
    (c : ℕ) (f : Field)
    → ¬ (58 ≡ c)
    → ¬ (32 ≡ c)
    → Lacks c f.name
    → Lacks c f.value
    → Lacks c (line_of f)
line-Lacks c f a b h k = All-append _ f.name (58 ∷ (32 ∷ f.value)) h (a, (b, k))

pub line-one_line : (f : Field) → IsField f → Lacks 13 (line_of f)
line-one_line f h =
    line-Lacks 13 f (λ e. omega (arith, e)) (λ e. omega (arith, e)) h.one_line.0 h.one_line.1

pub line-nul_free : (f : Field) → IsField f → Lacks 0 (line_of f)
line-nul_free f h =
    line-Lacks 0 f (λ e. omega (arith, e)) (λ e. omega (arith, e)) h.nul_free.0 h.nul_free.1

-- What is left once the line before has been read.
fields_lem :
    (xs : List ℕ) (fs : List Field) (params : Dict (List ℕ))
    → Lacks 13 xs
    → All IsField fs
    → lines [] (xs ++ (render fs ++ last_lines)) params ≡ puts fs (put_line xs params)
unfolding render puts lines
fields_lem xs [] params h k =
    lines-line [] xs (101 ∷ (110 ∷ (100 ∷ (13 ∷ (10 ∷ []))))) params h
    ∙ lines-line [] (101 ∷ (110 ∷ (100 ∷ []))) [] (put_line xs params)
        ((λ e. omega (arith, e)), ((λ e. omega (arith, e)), ((λ e. omega (arith, e)), tt)))
    ∙ put_line-other (101 ∷ (110 ∷ (100 ∷ []))) (put_line xs params)
        ((λ e. omega (arith, e)), ((λ e. omega (arith, e)), ((λ e. omega (arith, e)), tt)))
fields_lem xs (f ∷ fs) params h k =
    lines-line [] xs ((line_of f ++ render fs) ++ last_lines) params h
    ∙ ap (λ r. lines [] r (put_line xs params)) (append_assoc (line_of f) (render fs) last_lines)
    ∙ fields_lem (line_of f) fs (put_line xs params) (line-one_line f k.0) k.1
    ∙ ap (puts fs) (put_line-field f (put_line xs params) k.0)

-- Of a status line without a colon and the fields behind it, the loop leaves the fields, put in one
-- after the other.
pub lines-render :
    (status : List ℕ) (fs : List Field) (params : Dict (List ℕ))
    → Lacks 13 status
    → Lacks 58 status
    → All IsField fs
    → lines [] (status ++ (render fs ++ last_lines)) params ≡ puts fs params
lines-render status fs params h k l =
    fields_lem status fs params h l ∙ ap (puts fs) (put_line-other status params k)
