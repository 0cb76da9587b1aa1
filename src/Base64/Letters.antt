-- ===== src/Base64/Letters.antt =====
-- The letters of base 64 keep apart from the bar that KeyValue puts between its fields.
use msg_courier.Prelude.{
  ℕ, ◌+◌, ◌*◌, ◌/◌, ◌%◌, ◌<◌, ◌≡◌, refl, true, not, ◌==◌, List, [], ◌∷◌, All, all_below,
  all_below_sound, arith,
}
use msg_courier.Base64.{letter}
use msg_courier.Base64.Reference.{IsByte, reference}

letter-bar : (i : ℕ) → i < 64 → ¬ (letter i ≡ 124)
unfolding letter all_below
letter-bar i h e =
    let apart : not (letter i == 124) ≡ true =
      all_below_sound 64 (λ j. not (letter j == 124)) i refl h in
    ground (arith, apart, e)

pub reference-bar_free : (xs : List ℕ) → All IsByte xs → All (λ c. ¬ (c ≡ 124)) (reference xs)
unfolding reference
reference-bar_free [] h = tt
reference-bar_free (a ∷ []) h = (
  letter-bar (a / 4) (omega (arith, h.0)),
  (letter-bar (a % 4 * 16) (omega arith), ((λ e. omega (arith, e)), ((λ e. omega (arith, e)), tt))),
)
reference-bar_free (a ∷ b ∷ []) h = (
  letter-bar (a / 4) (omega (arith, h.0)),
  (
    letter-bar (a % 4 * 16 + b / 16) (omega (arith, h.1.0)),
    (letter-bar (b % 16 * 4) (omega arith), ((λ e. omega (arith, e)), tt)),
  ),
)
reference-bar_free (a ∷ b ∷ c ∷ xs) h = (
  letter-bar (a / 4) (omega (arith, h.0)),
  (
    letter-bar (a % 4 * 16 + b / 16) (omega (arith, h.1.0)),
    (
      letter-bar (b % 16 * 4 + c / 64) (omega (arith, h.1.1.0)),
      (letter-bar (c % 64) (omega arith), reference-bar_free xs h.1.1.1),
    ),
  ),
)
