-- ===== src/Examples/Memory.antt =====
-- Buffers of a few bytes, for buffer.cpp and base64.cpp.
use msg_courier.Prelude.{◌≡◌, refl, some, [], ◌∷◌, arith, All, replicate, length-replicate}
use msg_courier.Memory.{Block, Malloc, Allocates, Returns, done, fault}
use msg_courier.Buffer.{Buffer, no_error, count, resolve, bytes, insert, remove}
use msg_courier.Buffer.Valid.{IsValid}
use msg_courier.Buffer.Append.{Holds}
use msg_courier.Buffer.Insert.{insert-Holds}
use msg_courier.Buffer.Remove.{remove-Holds, remove-fault}
use msg_courier.Buffer.Text.{crypto}
use msg_courier.Buffer.Search.{find}
use msg_courier.Buffer.Search.Pattern.{IsFound, find-IsFound}
use msg_courier.Buffer.Text.Crypto.{crypto_twice}
use msg_courier.Base64.{new_base64, encode}
use msg_courier.Base64.Reference.{reference, IsByte}
use msg_courier.Base64.Object.{IsSound, new_base64-IsSound, encode-Holds, recover, recover-Holds}

abbrev space : Malloc
space n = some (replicate n 0)

space_works : Allocates space
space_works n = (replicate n 0, refl, length-replicate n 0)

-- "Hi" in eight bytes of memory
abbrev greeting : Buffer
greeting = record {
  block = some (72 ∷ 105 ∷ 0 ∷ 7 ∷ 7 ∷ 7 ∷ 7 ∷ 7 ∷ []);
  size = 8;
  tail = 2;
  min_alloc = 32;
  mid_alloc = 256;
}

greeting-IsValid : IsValid greeting
greeting-IsValid = record { held = (omega arith, omega arith) }

greeting-IsByte : All IsByte (bytes greeting)
greeting-IsByte = (omega arith, (omega arith, tt))

abbrev mark : Block
mark = 33 ∷ 63 ∷ 0 ∷ []

insert-Holds_example :
    Returns (λ b'. Holds b' (72 ∷ 33 ∷ 63 ∷ 105 ∷ [])) (insert space 1 mark (count 2) greeting)
insert-Holds_example =
    insert-Holds 1 mark 2 greeting greeting-IsValid (omega arith) (omega arith) space space_works
      (count 2) (unfold resolve in refl)

remove-Holds_example : Returns (λ r. (r.0 ≡ no_error) × Holds r.1 (105 ∷ [])) (remove 0 1 greeting)
remove-Holds_example = remove-Holds 0 1 greeting greeting-IsValid (omega arith) (omega arith)

remove-fault_example : remove 1 4 greeting ≡ fault
remove-fault_example =
    remove-fault 1 4 greeting greeting-IsValid (omega arith) (omega arith) (omega arith)
      (omega arith)

-- The key "ab"
crypto_twice_example :
    (b' : Buffer) × (crypto (97 ∷ 98 ∷ 0 ∷ []) greeting ≡ done b')
    × (crypto (97 ∷ 98 ∷ 0 ∷ []) b' ≡ done greeting)
crypto_twice_example =
    crypto_twice (97 ∷ 98 ∷ 0 ∷ []) 2 (omega arith, omega arith, refl) greeting greeting-IsValid
      greeting-IsByte

encode-Holds_example :
    Returns
      (λ r. IsSound r.0 × Holds r.1 (reference (72 ∷ 105 ∷ [])))
      (encode space new_base64 greeting)
encode-Holds_example =
    encode-Holds space space_works new_base64 greeting new_base64-IsSound greeting-IsValid
      greeting-IsByte

recover-Holds_example :
    Returns (λ r. IsSound r.0 × Holds r.1 (72 ∷ 105 ∷ [])) (recover space new_base64 greeting)
recover-Holds_example =
    recover-Holds space new_base64 greeting space_works new_base64-IsSound greeting-IsValid
      greeting-IsByte

find-IsFound_example : Returns (IsFound (105 ∷ []) 0 greeting) (find (105 ∷ []) 0 greeting)
find-IsFound_example =
    find-IsFound (105 ∷ []) 0 greeting greeting-IsValid (omega arith) (omega arith)
