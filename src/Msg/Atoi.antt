-- ===== src/Msg/Atoi.antt =====
-- atoi of the C library, as Parse of msg.cpp calls it; a number that no int holds is undefined
-- behaviour.
use msg_courier.Prelude.{
  ℕ, zero, suc, ◌+◌, ◌-◌, ◌*◌, ◌^◌, ℤ, pos, negsuc, Bool, ◌&&◌, ◌||◌, List, [], ◌∷◌, ltb, leb, ◌==◌,
  if◌then◌else◌,
}
use msg_courier.Memory.{Outcome, done, fault}

is_space : ℕ → Bool
is_space c = c == 32 || (leb 9 c && leb c 13)

is_digit : ℕ → Bool
is_digit c = leb 48 c && leb c 57

digits : ℕ → List ℕ → ℕ
unfolding is_digit
digits n [] = n
digits n (c ∷ cs) = let rest = digits (n * 10 + (c - 48)) cs in if is_digit c then rest else n

negative : ℕ → Outcome ℤ
negative zero = done (pos 0)
negative (suc n) = if ltb n (2 ^ 31) then done (negsuc n) else fault

positive : ℕ → Outcome ℤ
positive n = if ltb n (2 ^ 31) then done (pos n) else fault

signed : List ℕ → Outcome ℤ
unfolding digits negative positive
signed [] = done (pos 0)
signed (c ∷ cs) =
    if c == 45
    then negative (digits 0 cs)
    else if c == 43
    then positive (digits 0 cs)
    else positive (digits 0 (c ∷ cs))

unfoldable pub atoi : List ℕ → Outcome ℤ
unfolding is_space signed
atoi [] = done (pos 0)
atoi (c ∷ cs) = let rest = atoi cs in if is_space c then rest else signed (c ∷ cs)
