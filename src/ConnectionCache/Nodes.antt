-- ===== src/ConnectionCache/Nodes.antt =====
-- Lists of nodes, and the nodes that are left when a socket is freed.
use msg_courier.Prelude.{
  ℕ, ◌<◌, ◌≡◌, ◌≢◌, refl, sym, ◌∙◌, Bool, not, List, [], ◌∷◌, ◌++◌, map, arith, ◌==◌, if◌then◌else◌,
  length, All, filter, subst, ◌⊎◌, inl, inr, Bool-cases, ==_iff, length-filter_le,
}
use msg_courier.MsgPool.Cells.{Absent, Distinct}
use msg_courier.ConnectionCache.{Node}

abbrev pub ids : List Node → List ℕ
ids ns = map (λ n. n.id) ns

abbrev pub socks : List Node → List ℕ
socks ns = map (λ n. n.sock) ns

-- The nodes of other sockets.
abbrev pub without : ℕ → List Node → List Node
without s ns = filter (λ n. not (n.sock == s)) ns

pub without-Absent : (s : ℕ) (ns : List Node) → Absent s (socks ns) → without s ns ≡ ns
without-Absent s [] a = refl
without-Absent s (n ∷ ns) a = ground (arith, without-Absent s ns a.1, a.0)

pub Absent-without : (s : ℕ) (ns : List Node) → Absent s (socks (without s ns))
Absent-without s [] = tt
Absent-without s (n ∷ ns) = ground (arith, Absent-without s ns)

module _ {ℓ} {A : Type ℓ} (f : A → ℕ) (p : A → Bool) where
  pub Absent-filter : (s : ℕ) (xs : List A) → Absent s (map f xs) → Absent s (map f (filter p xs))
  Absent-filter s [] a = tt
  Absent-filter s (x ∷ xs) a = ground (arith, Absent-filter s xs a.1, a.0)

  pub Distinct-filter : (xs : List A) → Distinct (map f xs) → Distinct (map f (filter p xs))
  Distinct-filter [] d = tt
  Distinct-filter (x ∷ xs) d = ground (arith, Distinct-filter xs d.1, Absent-filter (f x) xs d.0)

module _ {ℓ} {A : Type ℓ} (f : A → ℕ) where
  pub Absent-append :
      (s : ℕ) (xs : List A) (x : A)
      → Absent s (map f xs)
      → f x ≢ s
      → Absent s (map f (xs ++ x ∷ []))
  Absent-append s [] x a h = (h, tt)
  Absent-append s (y ∷ ys) x a h = (a.0, Absent-append s ys x a.1 h)

  pub Distinct-append :
      (xs : List A) (x : A)
      → Distinct (map f xs)
      → Absent (f x) (map f xs)
      → Distinct (map f (xs ++ x ∷ []))
  Distinct-append [] x d a = (tt, tt)
  Distinct-append (y ∷ ys) x d a =
      (Absent-append (f y) ys x d.0 (λ e. a.0 (sym e)), Distinct-append ys x d.1 a.1)

-- A node of the socket is in the list.
abbrev pub Held : ℕ → List Node → Type 0
Held s [] = ⊥
Held s (n ∷ ns) = (n.sock ≡ s) ⊎ Held s ns

pub Held-cases : (s : ℕ) (ns : List Node) → Absent s (socks ns) ⊎ Held s ns
Held-cases s [] = inl tt
Held-cases s (n ∷ ns) = elim (Bool-cases (n.sock == s)) [
  | inl e ↦ inr (inl ((==_iff n.sock s).0 e))
  | inr e ↦ elim (Held-cases s ns) [
    | inl a ↦ inl (λ q. ground (arith, e, q), a)
    | inr h ↦ inr (inr h)
  ]
]

pub length-without : (s : ℕ) (ns : List Node) → Held s ns → length (without s ns) < length ns
length-without s [] h = absurd h
length-without s (n ∷ ns) h =
    ground (arith, length-filter_le (λ m. not (m.sock == s)) ns, length-without s ns)

pub Held-append :
    (s : ℕ) (ms : List Node) (n : Node) (ns : List Node) → n.sock ≡ s → Held s (ms ++ n ∷ ns)
Held-append s [] n ns e = inl e
Held-append s (m ∷ ms) n ns e = inr (Held-append s ms n ns e)

pub All-without {ℓ} :
    (P : Node → Type ℓ) (s : ℕ) (ns : List Node)
    → All P ns
    → All (λ n. P n × (n.sock ≢ s)) (without s ns)
All-without P s [] h = tt
All-without P s (n ∷ ns) h = elim (Bool-cases (n.sock == s)) [
  | inl e ↦ rw e (All-without P s ns h.1)
  | inr e ↦ rw e ((h.0, λ q. ground (arith, e, q)), All-without P s ns h.1)
]

pub Absent-without_back :
    (q s : ℕ) (ns : List Node) → q ≢ s → Absent q (socks (without s ns)) → Absent q (socks ns)
Absent-without_back q s [] ne a = tt
Absent-without_back q s (n ∷ ns) ne a = elim (Bool-cases (n.sock == s)) [
  | inl e ↦ (
    λ z. ne (sym z ∙ (==_iff n.sock s).0 e),
    Absent-without_back q s ns ne
        (subst (λ b. Absent q (socks (if not b then n ∷ without s ns else without s ns))) e a),
  )
  | inr e ↦
      let a' =
        subst (λ b. Absent q (socks (if not b then n ∷ without s ns else without s ns))) e a in
      (a'.0, Absent-without_back q s ns ne a'.1)
]

-- What a list with one more node is without.
pub Absent-append_back :
    (s : ℕ) (ns : List Node) (n : Node)
    → Absent s (socks (ns ++ n ∷ []))
    → Absent s (socks ns) × (n.sock ≢ s)
Absent-append_back s [] n a = (tt, a.0)
Absent-append_back s (m ∷ ms) n a = let (b, ne) = Absent-append_back s ms n a.1 in ((a.0, b), ne)

pub below-Absent : (k : ℕ) (ns : List Node) → All (λ n. n.id < k) ns → Absent k (ids ns)
below-Absent k [] h = tt
below-Absent k (n ∷ ns) h = (λ e. omega (arith, h.0, e), below-Absent k ns h.1)

pub All-Absent {ℓ} :
    (P : Node → Type ℓ) (s : ℕ) (ns : List Node)
    → All P ns
    → Absent s (socks ns)
    → All (λ n. P n × (n.sock ≢ s)) ns
All-Absent P s [] h a = tt
All-Absent P s (n ∷ ns) h a = ((h.0, a.0), All-Absent P s ns h.1 a.1)

pub Absent-node :
    (s : ℕ) (ms : List Node) (n : Node) (ns : List Node)
    → Absent s (socks (ms ++ n ∷ ns))
    → n.sock ≢ s
Absent-node s [] n ns a = a.0
Absent-node s (m ∷ ms) n ns a = Absent-node s ms n ns a.1

-- What Distinct says of one node of a list.
pub Distinct-middle :
    (ms : List Node) (n : Node) (ns : List Node)
    → Distinct (socks (ms ++ n ∷ ns))
    → Absent n.sock (socks ns) × (without n.sock (ms ++ n ∷ ns) ≡ ms ++ ns)
Distinct-middle [] n ns d = (d.0, ground (arith, without-Absent n.sock ns d.0))
Distinct-middle (m ∷ ms) n ns d =
    let (a, e) = Distinct-middle ms n ns d.1 in
    (a, ground (arith, e, Absent-node m.sock ms n ns d.0))
