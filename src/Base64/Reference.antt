-- ===== src/Base64/Reference.antt =====
-- Base 64 as RFC 4648 describes it, group by group, and that Encode computes it.
use msg_courier.Prelude.{
  ℕ, ◌+◌, ◌*◌, ◌/◌, ◌%◌, ◌<◌, ◌≡◌, sym, ◌∙◌, ap, List, [], ◌∷◌, ◌++◌, append_assoc, append-nil,
  arith, All,
}
use msg_courier.Base64.{letter, letters_of, encode_loop, encode_end, encoded}
use msg_courier.Base64.Words.{quad_lem}

unfoldable pub reference : List ℕ → List ℕ
reference [] = []
reference (a ∷ []) = letter (a / 4) ∷ letter (a % 4 * 16) ∷ b'=' ∷ b'=' ∷ []
reference (a ∷ b ∷ []) =
    letter (a / 4) ∷ letter (a % 4 * 16 + b / 16) ∷ letter (b % 16 * 4) ∷ b'=' ∷ []
reference (a ∷ b ∷ c ∷ rest) =
    letter (a / 4)
    ∷ letter (a % 4 * 16 + b / 16)
    ∷ letter (b % 16 * 4 + c / 64)
    ∷ letter (c % 64)
    ∷ reference rest

abbrev pub IsByte : ℕ → Type 0
IsByte x = x < 256

-- The four letters of a full group.
abbrev pub group_letters : ℕ → ℕ → ℕ → List ℕ
group_letters a b c =
    letter (a / 4)
    ∷ letter (a % 4 * 16 + b / 16)
    ∷ letter (b % 16 * 4 + c / 64)
    ∷ letter (c % 64)
    ∷ []

letters_lem :
    (a b c : ℕ) → IsByte a → IsByte b → IsByte c → letters_of (a ∷ b ∷ c ∷ []) ≡ group_letters a b c
unfolding letters_of
letters_lem a b c ha hb hc = let (p, q, r, s) = quad_lem a b c ha hb hc in cc (p, q, r, s)

encode_end-loop :
    (xs out : List ℕ)
    → All IsByte xs
    → encode_end (encode_loop (record { group = []; out = out }) xs) ≡ out ++ reference xs
unfolding encode_end encode_loop reference
encode_end-loop [] out h = sym (append-nil out)
encode_end-loop (a ∷ []) out h =
    let q = quad_lem a 0 0 h.0 (omega arith) (omega arith) in ground (arith, q)
encode_end-loop (a ∷ b ∷ []) out h =
    let q = quad_lem a b 0 h.0 h.1.0 (omega arith) in ground (arith, q)
encode_end-loop (a ∷ b ∷ c ∷ xs) out h =
    ap (λ g. encode_end (encode_loop (record { group = []; out = out ++ g }) xs))
      (letters_lem a b c h.0 h.1.0 h.1.1.0)
    ∙ encode_end-loop xs (out ++ group_letters a b c) h.1.1.1
    ∙ append_assoc out (group_letters a b c) (reference xs)

-- Encode computes the base 64 of RFC 4648, padding included, for every text of bytes.
pub encoded-eq-reference : (xs : List ℕ) → All IsByte xs → encoded xs ≡ reference xs
unfolding encoded
encoded-eq-reference xs h = encode_end-loop xs [] h
