-- ===== src/Buffer/Text/Crypto.antt =====
-- Crypto undoes itself.
use msg_courier.Prelude.{
  in_range, ℕ, zero, suc, ◌+◌, ◌*◌, ◌/◌, ◌%◌, ◌^◌, ◌≤◌, ◌<◌, ◌≡◌, ◌≢◌, refl, sym, ◌∙◌, ap, Option,
  none, some, List, [], ◌∷◌, ◌++◌, arith, All, get_elem?, take, drop, length, length-take,
  take-append_left, drop-append_left, take-append-drop, take-append_left, drop-append_left,
}
use native.Mathlib.Nat.{pow-suc}
use msg_courier.Memory.{done, Block}
use msg_courier.Buffer.{Buffer, bytes, content}
use msg_courier.Buffer.Valid.{Held, IsValid}
use msg_courier.Buffer.Text.{xor, mix, key_at, crypto_loop, in_place, crypto}

pub halve : (a b : ℕ) → (a * 2 + b % 2) / 2 ≡ a
halve a b = omega arith

pub xor_twice : (w x y : ℕ) → x < 2 ^ w → xor w (xor w x y) y ≡ x
unfolding xor
xor_twice zero x y h = omega (arith, h)
xor_twice (suc w) x y h =
    let p = pow-suc 2 w in
    let deep = xor_twice w (x / 2) (y / 2) (omega (arith, h, p)) in
    rw (halve (xor w (x / 2) (y / 2)) (x % 2 + y % 2), deep) (omega arith)

pub xor_swap : (w x y z : ℕ) → xor w (xor w x y) z ≡ xor w (xor w x z) y
unfolding xor
xor_swap zero x y z = refl
xor_swap (suc w) x y z =
    rw
      (
        halve (xor w (x / 2) (y / 2)) (x % 2 + y % 2),
        halve (xor w (x / 2) (z / 2)) (x % 2 + z % 2),
        xor_swap w (x / 2) (y / 2) (z / 2),
      )
      (omega arith)

pub xor-lt : (w x y : ℕ) → xor w x y < 2 ^ w
unfolding xor
xor-lt zero x y = omega arith
xor-lt (suc w) x y = omega (arith, xor-lt w (x / 2) (y / 2), pow-suc 2 w)

mix_twice : (c k i : ℕ) → c < 256 → mix (mix c k i) k i ≡ c
unfolding mix
mix_twice c k i h =
    ap (λ x. xor 8 x (i % 256)) (xor_swap 8 (xor 8 c k) (i % 256) k)
    ∙ xor_twice 8 (xor 8 (xor 8 c k) k) (i % 256) (xor-lt 8 (xor 8 c k) k)
    ∙ xor_twice 8 c k h

-- The key is a text of n bytes, one at least, with its NUL.
abbrev pub IsKey : Block → ℕ → Type 0
IsKey key n = (0 < n) × (n < length key) × (get_elem? key n ≡ some 0)

-- The byte that the loop takes, and the offset after which it goes on.
module _ (key : Block) (n : ℕ) (good : IsKey key n) where
  key_at-done :
      (j k : ℕ)
      → j ≤ n
      → get_elem? key j ≡ some k
      → (r : ℕ × ℕ) × (key_at key j (some k) ≡ done r) × (r.1 < n)
  unfolding key_at
  key_at-done j zero h e =
      let (k, at) = in_range key 0 (omega (arith, good.0, good.1)) in
      ((k, 0), rw (at, key_at) refl, good.0)
  key_at-done j (suc k) h e = ((suc k, j), refl, ground (arith, last))
    where
      last : j ≢ n
      last same = ground (arith, sym e ∙ ap (get_elem? key) same ∙ good.2)

  -- The loop run on what it leaves gives back the bytes.
  crypto_loop_twice :
      (cs : List ℕ) (j i : ℕ)
      → j ≤ n
      → All (λ c. c < 256) cs
      → (out : List ℕ) × (crypto_loop key j i cs ≡ done out)
        × (crypto_loop key j i out ≡ done cs)
        × (length out ≡ length cs)
  unfolding crypto_loop
  crypto_loop_twice [] j i h small = ([], refl, refl, refl)
  crypto_loop_twice (c ∷ cs) j i h small =
      let (k₀, at) = in_range key j (omega (arith, h, good.1)) in
      let ((k, j'), ran, before_end) = key_at-done j k₀ h at in
      let (out, there, and_back, same) =
        crypto_loop_twice cs (j' + 1) (i + 1) (omega (arith, before_end)) small.1 in
      (
        mix c k i ∷ out,
        rw (at, ran, there) refl,
        rw (at, ran, and_back, mix_twice c k i small.0) refl,
        ap suc same,
      )

  -- The same for the bytes before the tail of a block, with what is behind them.
  in_place_twice :
      (m : Block) (b : Buffer)
      → b.block ≡ some m
      → b.tail ≤ length m
      → All (λ c. c < 256) (take b.tail m)
      → (b' : Buffer) × (in_place (crypto_loop key 0 0) (some m) b ≡ done b')
        × (in_place (crypto_loop key 0 0) b'.block b' ≡ done b)
  unfolding in_place
  in_place_twice m b e fits small =
      let (out, there, and_back, same) =
        crypto_loop_twice (take b.tail m) 0 0 (omega arith) small in
      let size = same ∙ length-take b.tail m fits in
      (
        record b { block = some (out ++ drop b.tail m) },
        rw there refl,
        rw
            (
              take-append_left b.tail out (drop b.tail m) size,
              and_back,
              drop-append_left b.tail out (drop b.tail m) size,
              take-append-drop b.tail m,
            )
            (ap (λ blk. done (record b { block = blk })) (sym e)),
      )

  by_block :
      (b : Buffer) (blk : Option Block)
      → b.block ≡ blk
      → Held blk b.size b.tail
      → All (λ c. c < 256) (content blk b.tail)
      → (b' : Buffer) × (in_place (crypto_loop key 0 0) blk b ≡ done b')
        × (in_place (crypto_loop key 0 0) b'.block b' ≡ done b)
  unfolding in_place
  by_block b none e h small = (b, refl, ap (λ blk. in_place (crypto_loop key 0 0) blk b) e)
  by_block b (some m) e h small = in_place_twice m b e (omega (arith, h)) small

  -- On a sound buffer of bytes, Crypto with a key that is not empty returns, and a second time
  -- with that key it gives back the buffer as it was.
  pub crypto_twice :
      (b : Buffer)
      → IsValid b
      → All (λ c. c < 256) (bytes b)
      → (b' : Buffer) × (crypto key b ≡ done b') × (crypto key b' ≡ done b)
  unfolding crypto
  crypto_twice b v small = by_block b b.block refl v.held small
