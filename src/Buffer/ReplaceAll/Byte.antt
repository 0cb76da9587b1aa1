-- ===== src/Buffer/ReplaceAll/Byte.antt =====
-- ReplaceAll of a pattern of one byte.
use msg_courier.Prelude.{
  ℕ, zero, suc, ◌+◌, ◌<◌, ◌≡◌, refl, sym, ap, ap₂, ◌∙◌, subst, inl, inr, some, List, [], ◌∷◌, ◌++◌,
  append_assoc, take, drop, length, length-append, take-append_left, drop-append_left,
  All-append_right, arith,
}
use msg_courier.Memory.{◌>>=◌, Malloc, Allocates, Returns, Returns-bind, Returns-map}
use msg_courier.Buffer.{Buffer, count, bytes, insert, remove, resolve}
use msg_courier.Buffer.Append.{Holds}
use msg_courier.Buffer.Copy.{length-bytes}
use msg_courier.Buffer.Insert.{insert-Holds}
use msg_courier.Buffer.Remove.{remove-Holds}
use msg_courier.Buffer.Search.{strstr}
use msg_courier.Buffer.Search.Places.{strstr-append}
use msg_courier.HeaderExtract.Lines.{Lacks}
use msg_courier.Buffer.ReplaceAll.{replace_at, replace_loop, replace_all}
use msg_courier.Buffer.ReplaceAll.Places.{
  replaced, replaced-Lacks, replaced-append, Split, split, find_rest, strstr-none, begins_one,
}

module _ (malloc : Malloc) (works : Allocates malloc) (c : ℕ) (text : List ℕ) where
  -- One byte goes, and the text stands in its place.
  replace_at-Holds :
      (b : Buffer) (xs ys : List ℕ)
      → Holds b (xs ++ (c ∷ ys))
      → Returns (λ b'. Holds b' (xs ++ (text ++ ys))) (replace_at malloc (length xs) 1 text b)
  unfolding replace_at resolve
  replace_at-Holds b xs ys holds =
      let n = length-bytes b (xs ++ (c ∷ ys)) holds in
      let size = length-append xs (c ∷ ys) in
      let kept : (zs : List ℕ)
          → zs ≡ xs ++ (c ∷ ys)
          → take (length xs) zs ++ drop (1 + length xs) zs ≡ xs ++ ys =
        λ zs e. ap (λ zs. take (length xs) zs ++ drop (1 + length xs) zs) e ∙ without xs in
      Returns-bind (λ r. Holds r.1 (xs ++ ys)) _ (remove (length xs) 1 b) _
        (Returns-map _ _ (remove (length xs) 1 b)
          (remove-Holds (length xs) 1 b holds.valid (omega arith) (omega (arith, n, size)))
          (λ r h. subst (Holds r.1) (kept (bytes b) holds.stands_for) h.1))
        (λ r h.
          let m = length-bytes r.1 (xs ++ ys) h in
          let given = length-append text (0 ∷ []) in
          Returns-map _ _ (insert malloc (length xs) (text ++ 0 ∷ []) (count (length text)) r.1)
            (insert-Holds (length xs) (text ++ 0 ∷ []) (length text) r.1 h.valid
              (omega (arith, given)) (omega (arith, m, length-append xs ys)) malloc works
              (count (length text)) refl)
            (λ b' h'. subst (Holds b') (spliced (bytes r.1) h.stands_for) h'))
    where
      cut :
          (xs : List ℕ)
          → take (length xs) (xs ++ (c ∷ ys)) ++ drop (suc (length xs)) (xs ++ (c ∷ ys)) ≡ xs ++ ys
      cut [] = refl
      cut (x ∷ xs) = ap (λ zs. x ∷ zs) (cut xs)

      without :
          (xs : List ℕ)
          → take (length xs) (xs ++ (c ∷ ys)) ++ drop (1 + length xs) (xs ++ (c ∷ ys)) ≡ xs ++ ys
      without xs = let one : 1 + length xs ≡ suc (length xs) = omega arith in rw one (cut xs)

      spliced :
          (zs : List ℕ)
          → zs ≡ xs ++ ys
          → take (length xs) zs ++ (take (length text) (text ++ 0 ∷ []) ++ drop (length xs) zs)
            ≡ xs ++ (text ++ ys)
      spliced zs e =
          ap
            (λ zs.
              take (length xs) zs ++ (take (length text) (text ++ 0 ∷ []) ++ drop (length xs) zs))
            e
          ∙ ap₂ (λ us vs. us ++ vs) (take-append_left (length xs) xs ys refl)
              (ap₂ (λ us vs. us ++ vs) (take-append_left (length text) text (0 ∷ []) refl)
                (drop-append_left (length xs) xs ys refl))

  loop-Holds :
      (rounds : ℕ) (b : Buffer) (xs rest : List ℕ)
      → Holds b (xs ++ rest)
      → Lacks 0 rest
      → length rest < rounds
      → Returns
          (λ b'. Holds b' (xs ++ replaced c text rest))
          (replace_loop malloc (c ∷ []) text rounds (length xs) b)
  unfolding replace_loop
  loop-Holds zero b xs rest holds free lt = absurd (omega (arith, lt))
  loop-Holds (suc rounds) b xs rest holds free lt =
      let (b₁, found, h₁) = find_rest c b xs rest holds free in
      rw (found, ◌>>=◌)
        (elim (split c rest) [
          | inr h ↦
              rw (strstr-none c rest (length xs) h)
                (subst (λ ys. Holds b₁ (xs ++ ys)) (sym (replaced-Lacks c text rest h)) h₁)
          | inl s ↦
              let place : strstr (c ∷ []) rest (length xs) ≡ some (length (xs ++ s.front)) =
                ap (λ ys. strstr (c ∷ []) ys (length xs)) s.shape
                ∙ strstr-append c [] s.front (c ∷ s.behind) (length xs) s.free
                    (begins_one c s.behind)
                ∙ ap some (sym (length-append xs s.front)) in
              let shown : xs ++ rest ≡ (xs ++ s.front) ++ (c ∷ s.behind) =
                ap (λ ys. xs ++ ys) s.shape ∙ sym (append_assoc xs s.front (c ∷ s.behind)) in
              let size = length-append s.front (c ∷ s.behind) in
              let free' =
                All-append_right _ s.front (c ∷ s.behind) (subst (Lacks 0) s.shape free) in
              rw place (
                Returns-bind _ _ (replace_at malloc (length (xs ++ s.front)) 1 text b₁) _
                  (replace_at-Holds b₁ (xs ++ s.front) s.behind (subst (Holds b₁) shown h₁))
                  (λ b₂ h₂.
                    let front = (xs ++ s.front) ++ text in
                    let done_so_far = sym (append_assoc (xs ++ s.front) text s.behind) in
                    subst
                      (λ i.
                        Returns (λ b'. Holds b' (xs ++ replaced c text rest))
                          (replace_loop malloc (c ∷ []) text rounds i b₂))
                      (length-append (xs ++ s.front) text)
                      (Returns-map _ _ (replace_loop malloc (c ∷ []) text rounds (length front) b₂)
                        (loop-Holds rounds b₂ front s.behind (subst (Holds b₂) done_so_far h₂)
                          free'.1 (omega (arith, lt, size, ap length s.shape)))
                        (λ b' h'. subst (Holds b') (whole s) h'))))
        ])
    where
      whole :
          (s : Split c rest)
          → ((xs ++ s.front) ++ text) ++ replaced c text s.behind ≡ xs ++ replaced c text rest
      whole s =
          append_assoc (xs ++ s.front) text (replaced c text s.behind)
          ∙ append_assoc xs s.front (text ++ replaced c text s.behind)
          ∙ ap (λ ys. xs ++ ys)
              (sym (replaced-append c text s.front s.behind s.free)
                ∙ ap (replaced c text) (sym s.shape))

  -- With memory left, on a sound buffer without a NUL in its contents, ReplaceAll of one byte by
  -- any text returns, never leaves the memory, and leaves a sound buffer with the text in place of
  -- each such byte, also where the text itself has that byte.
  pub replace_all-Holds :
      (b : Buffer) (xs : List ℕ)
      → Holds b xs
      → Lacks 0 xs
      → Returns (λ b'. Holds b' (replaced c text xs)) (replace_all malloc (c ∷ []) text b)
  unfolding replace_all
  replace_all-Holds b xs holds free =
      let n = length-bytes b xs holds in
      loop-Holds (b.tail + 1) b [] xs holds free (omega (arith, n))
