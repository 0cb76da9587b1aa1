-- ===== src/HeaderExtract/Header.antt =====
-- Where the header of a message ends, for a status line with fields behind it.
use msg_courier.Prelude.{
  ℕ, suc, ◌+◌, ◌≡◌, refl, ap, ◌∙◌, false, some, List, [], ◌∷◌, ◌++◌, ◌==◌, length, length-append,
  append_assoc, arith, All, All-append,
}
use msg_courier.Buffer.Search.{begins, strstr}
use msg_courier.Buffer.Search.Places.{begins_self, strstr-here, strstr-later, strstr-skip}
use msg_courier.Buffer.Search.Exact.{c_str, c_str-append}
use msg_courier.HeaderExtract.{end_of_header}
use msg_courier.HeaderExtract.Lines.{
  Field, IsField, Lacks, line_of, render, line-one_line, line-nul_free,
}

abbrev pub head : List ℕ → List Field → List ℕ
head status fs = status ++ render fs

-- The text of a message: its status line, its fields, an empty line and the payload.
abbrev pub message : List ℕ → List Field → List ℕ → List ℕ
message status fs payload = head status fs ++ (end_of_header ++ payload)

begins-line :
    (line rest : List ℕ) (c : ℕ)
    → ¬ (c ≡ 13)
    → begins end_of_header (13 ∷ (10 ∷ (c ∷ line))) ≡ false
unfolding begins
begins-line line rest c h = let e : (13 == c) ≡ false = ground arith in rw e refl

no_end :
    (f : Field)
    → IsField f
    → (rest : List ℕ) → begins end_of_header (13 ∷ (10 ∷ (line_of f ++ rest))) ≡ false
no_end f h rest = by_name f.name h.one_line.0
  where
    by_name :
        (name : List ℕ)
        → Lacks 13 name
        → begins end_of_header (13 ∷ (10 ∷ ((name ++ (58 ∷ (32 ∷ f.value))) ++ rest))) ≡ false
    by_name [] k = begins-line ((32 ∷ f.value) ++ rest) rest 58 (λ e. omega (arith, e))
    by_name (c ∷ cs) k = begins-line ((cs ++ (58 ∷ (32 ∷ f.value))) ++ rest) rest c k.0

strstr-render :
    (fs : List Field) (payload : List ℕ) (at : ℕ)
    → All IsField fs
    → strstr end_of_header (render fs ++ (end_of_header ++ payload)) at
      ≡ some (at + length (render fs))
unfolding render
strstr-render [] payload at h =
    strstr-here end_of_header (end_of_header ++ payload) at (begins_self end_of_header payload)
    ∙ ap some (omega arith)
strstr-render (f ∷ fs) payload at h =
    let whole = append_assoc (line_of f) (render fs) (end_of_header ++ payload) in
    ap (λ ys. strstr end_of_header (13 ∷ (10 ∷ ys)) at) whole
    ∙ strstr-later end_of_header (10 ∷ (line_of f ++ (render fs ++ (end_of_header ++ payload)))) 13
        at (no_end f h.0 (render fs ++ (end_of_header ++ payload)))
    ∙ strstr-skip 13 (10 ∷ (13 ∷ (10 ∷ []))) (10 ∷ line_of f)
        (render fs ++ (end_of_header ++ payload)) (at + 1)
        ((λ e. omega (arith, e)), line-one_line f h.0)
    ∙ strstr-render fs payload (at + 1 + suc (length (line_of f))) h.1
    ∙ ap some (omega (arith, length-append (line_of f) (render fs)))

module _ (status : List ℕ) (fs : List Field) (one_line : Lacks 13 status)
    (fields : All IsField fs) where
  -- The empty line is found where the fields end.
  pub strstr-end :
      (payload : List ℕ)
      → strstr end_of_header (message status fs payload) 0 ≡ some (length (head status fs))
  strstr-end payload =
      ap (λ ys. strstr end_of_header ys 0)
        (append_assoc status (render fs) (end_of_header ++ payload))
      ∙ strstr-skip 13 (10 ∷ (13 ∷ (10 ∷ []))) status (render fs ++ (end_of_header ++ payload)) 0
          one_line
      ∙ strstr-render fs payload (0 + length status) fields
      ∙ ap some (omega (arith, length-append status (render fs)))

render-nul_free : (fs : List Field) → All IsField fs → Lacks 0 (render fs)
unfolding render
render-nul_free [] h = tt
render-nul_free (f ∷ fs) h = (
  (λ e. omega (arith, e)),
  (
    (λ e. omega (arith, e)),
    All-append _ (line_of f) (render fs) (line-nul_free f h.0) (render-nul_free fs h.1),
  ),
)

pub head-nul_free :
    (status : List ℕ) (fs : List Field) → Lacks 0 status → All IsField fs → Lacks 0 (head status fs)
head-nul_free status fs h k = All-append _ status (render fs) h (render-nul_free fs k)

-- The text that Find looks at is that of a message whose payload ends before its first NUL.
pub c_str-message :
    (status : List ℕ) (fs : List Field) (payload : List ℕ)
    → Lacks 0 status
    → All IsField fs
    → c_str (message status fs payload) ≡ message status fs (c_str payload)
c_str-message status fs payload h k =
    c_str-append (head status fs) (end_of_header ++ payload) (head-nul_free status fs h k)
    ∙ ap (λ ys. head status fs ++ ys)
        (c_str-append end_of_header payload (
          (λ e. omega (arith, e)),
          ((λ e. omega (arith, e)), ((λ e. omega (arith, e)), ((λ e. omega (arith, e)), tt))),
        ))
