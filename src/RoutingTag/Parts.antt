-- ===== src/RoutingTag/Parts.antt =====
-- SetTag on a tag of three parts.
use msg_courier.Prelude.{
  ℕ, zero, suc, ◌+◌, ◌^◌, ◌<◌, ◌≡◌, refl, sym, ap, ◌∙◌, true, false, some, List, [], ◌∷◌, ◌++◌,
  ◌==◌, drop, length, lt→ltb, append_assoc, length-append, take-append_left, drop-append_left,
  arith, All, All-append,
}
use msg_courier.RoutingTag.{
  RoutingTag, at_sign, colon, find_first, build_full_tag, ip_len, name_of, port_of, addr_of,
  set_tag_by, set_tag,
}

pub find_first-append :
    (c : ℕ) (xs ys : List ℕ)
    → All (λ x. ¬ (x ≡ c)) xs
    → find_first c (xs ++ c ∷ ys) ≡ some (length xs)
unfolding find_first
find_first-append c [] ys h = let e : (c == c) ≡ true = ground arith in rw e
find_first-append c (x ∷ xs) ys h =
    let no = h.0 in let e : (x == c) ≡ false = ground arith in rw (e, find_first-append c xs ys h.1)

ip_len-some : (i n : ℕ) → n < 2 ^ 31 → ip_len (some i) (some (i + suc n)) ≡ n
unfolding ip_len
ip_len-some i n h = omega arith

name_of-append : (n : ℕ) (xs ys : List ℕ) → 0 < n → length xs ≡ n → name_of (xs ++ ys) (some n) ≡ xs
unfolding name_of
name_of-append zero xs ys h e = absurd (omega arith)
name_of-append (suc n) xs ys h e = take-append_left (suc n) xs ys e

port_of-append :
    (n : ℕ) (xs ys : List ℕ) → 0 < n → length xs ≡ n → port_of (xs ++ colon ∷ ys) (some n) ≡ ys
unfolding port_of
port_of-append zero xs ys h e = absurd (omega arith)
port_of-append (suc n) [] ys h e = absurd (omega arith)
port_of-append (suc n) (x ∷ xs) ys h e = drop_past n xs (omega arith)
  where
    drop_past : (n : ℕ) (xs : List ℕ) → length xs ≡ n → drop (suc n) (xs ++ colon ∷ ys) ≡ ys
    drop_past zero [] e = refl
    drop_past zero (x ∷ xs) e = absurd (omega arith)
    drop_past (suc n) [] e = absurd (omega arith)
    drop_past (suc n) (x ∷ xs) e = drop_past n xs (omega arith)

addr_of-append :
    (i n : ℕ) (xs ys zs : List ℕ)
    → length xs ≡ i
    → length ys ≡ n
    → 0 < n
    → n < 2 ^ 31
    → addr_of (xs ++ (at_sign ∷ (ys ++ zs))) (some i) (some (i + suc n)) ≡ ys
unfolding addr_of
addr_of-append i n xs ys zs at_i of_n h small =
    let far =
      drop-append_left (suc i) (xs ++ at_sign ∷ []) (ys ++ zs)
        (length-append xs (at_sign ∷ []) ∙ omega (arith, at_i)) in
    let rest : drop (suc i) (xs ++ (at_sign ∷ (ys ++ zs))) ≡ ys ++ zs =
      ap (drop (suc i)) (sym (append_assoc xs (at_sign ∷ []) (ys ++ zs))) ∙ far in
    rw (ip_len-some i n small, lt→ltb 0 n h, lt→ltb n (2 ^ 31) small, rest)
      (take-append_left n ys zs of_n)

-- A name and an address that SetTag can tell apart in the tag that is built of them.
pub record IsPlain (t : RoutingTag) : Type 0 where
  pub named : 0 < length t.tag_name
  pub at_free : All (λ x. ¬ (x ≡ at_sign)) t.tag_name
  pub name_colon_free : All (λ x. ¬ (x ≡ colon)) t.tag_name
  pub addressed : 0 < length t.tag_addr
  pub addr_colon_free : All (λ x. ¬ (x ≡ colon)) t.tag_addr
  pub short : length t.tag_addr < 2 ^ 31

abbrev parts : RoutingTag → List ℕ
parts t = t.tag_name ++ (at_sign ∷ (t.tag_addr ++ (colon ∷ t.tag_port)))

find_first-at :
    (t : RoutingTag) → IsPlain t → find_first at_sign (parts t) ≡ some (length t.tag_name)
find_first-at t p = find_first-append at_sign t.tag_name _ p.at_free

split_at_colon :
    (t : RoutingTag) → parts t ≡ (t.tag_name ++ (at_sign ∷ t.tag_addr)) ++ (colon ∷ t.tag_port)
split_at_colon t = sym (append_assoc t.tag_name (at_sign ∷ t.tag_addr) (colon ∷ t.tag_port))

length-split :
    (t : RoutingTag)
    → length (t.tag_name ++ (at_sign ∷ t.tag_addr)) ≡ length t.tag_name + suc (length t.tag_addr)
length-split t = length-append t.tag_name (at_sign ∷ t.tag_addr)

find_first-colon :
    (t : RoutingTag)
    → IsPlain t
    → find_first colon (parts t) ≡ some (length t.tag_name + suc (length t.tag_addr))
find_first-colon t p =
    ap (find_first colon) (split_at_colon t)
    ∙ find_first-append colon (t.tag_name ++ (at_sign ∷ t.tag_addr)) t.tag_port (
        All-append _ t.tag_name (at_sign ∷ t.tag_addr) p.name_colon_free
          ((λ e. omega (arith, e)), p.addr_colon_free))
    ∙ ap some (length-split t)

-- Where the name and the address are not empty, the name has no @ and no colon, and the address
-- has no colon and fewer than 2^31 bytes, SetTag takes the full tag that BuildFullTag makes of
-- them and of any port back into its parts, whatever the object had before.
pub set_tag-built :
    (t u : RoutingTag) → IsPlain t → set_tag (build_full_tag t).full_tag u ≡ build_full_tag t
unfolding set_tag set_tag_by build_full_tag
set_tag-built t u p =
    let name =
      name_of-append (length t.tag_name) t.tag_name (at_sign ∷ (t.tag_addr ++ (colon ∷ t.tag_port)))
        p.named refl in
    let addr =
      addr_of-append (length t.tag_name) (length t.tag_addr) t.tag_name t.tag_addr
        (colon ∷ t.tag_port) refl refl p.addressed p.short in
    let port =
      ap (λ tag. port_of tag (some (length t.tag_name + suc (length t.tag_addr))))
        (split_at_colon t)
      ∙ port_of-append (length t.tag_name + suc (length t.tag_addr))
          (t.tag_name ++ (at_sign ∷ t.tag_addr)) t.tag_port (omega arith) (length-split t) in
    rw (find_first-at t p, find_first-colon t p) (rw (name, addr, port) refl)
