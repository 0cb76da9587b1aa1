-- ===== src/Prelude/Texts.antt =====
-- Texts as the bytes of a C++ string, and as `String`, with a character for each byte.
use Prim.Native.Nat.{ℕ, compare, Ordering}
use Prim.Native.Char.{Char, IsScalar, char, code, nul}
use Prim.Native.String.{String}
use mathlib.Core.Path.{◌≡◌, refl}
use mathlib.Core.List.{List, [], ◌∷◌}

abbrev pub codes : String → List ℕ
codes String.[] = []
codes (String.◌∷◌ c s) = code c ∷ codes s

pub scalar : (n : ℕ) → compare n 55296 ≡ Ordering.lt → IsScalar n
scalar n e = rw e tt

abbrev chr_by : (n : ℕ) (o : Ordering) → compare n 55296 ≡ o → Char
chr_by n Ordering.lt e = char n (scalar n e)
chr_by n Ordering.eq e = nul
chr_by n Ordering.gt e = nul

unfoldable pub text : List ℕ → String
text [] = ""
text (c ∷ cs) = String.◌∷◌ (chr_by c (compare c 55296) refl) (text cs)
