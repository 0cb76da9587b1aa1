-- ===== src/ConnectionCache/Sweep.antt =====
-- Calls of SetActiveConnections, until one leaves no connection for the next.
use msg_courier.Prelude.{
  ℕ, zero, suc, ◌<◌, ◌≡◌, refl, sym, ap, ◌∙◌, subst, Bool, true, false, Option, none, some, List,
  [], ◌∷◌, ◌++◌, append-nil, append_assoc, arith, length, take, drop, length-drop, take-append-drop,
  inl, inr,
}
use msg_courier.Memory.{Outcome, done, ◌>>=◌, Returns, Returns-bind}
use msg_courier.ConnectionCache.{Place, node, finish, singular, Node, Cache}
use msg_courier.ConnectionCache.Walk.{place_of, Pass, set_active_connections}
use msg_courier.ConnectionCache.Nodes.{socks}
use msg_courier.ConnectionCache.Sound.{IsSound}
use msg_courier.ConnectionCache.Passes.{Begins, Passed, set_active_connections-Passed}

abbrev pub is_finish : Place → Bool
is_finish (node i) = false
is_finish finish = true
is_finish singular = false

abbrev pub prefix : List ℕ → Option (List ℕ × Cache) → Option (List ℕ × Cache)
prefix ss none = none
prefix ss (some (rest, c)) = some (ss ++ rest, c)

abbrev pub Sweep : Type 0
Sweep = Outcome (Option (List ℕ × Cache))

-- A pass that leaves nothing over is the last.
abbrev pub joined : Bool → List ℕ → Cache → Sweep → Sweep
joined true ss c rest = done (some (ss, c))
joined false ss c rest = do more ← rest; done (prefix ss more)

unfoldable pub sweep : ℕ → ℕ → Cache → Sweep
sweep zero size c = done none
sweep (suc f) size c = do
  (pass, c') ← set_active_connections size c
  joined (is_finish c'.marker) pass.set c' (sweep f size c')

-- Every socket once, in the order of the list, and the cache ready for the next sweep.
abbrev pub Swept : Cache → List Node → Option (List ℕ × Cache) → Type 0
Swept c rest none = ⊥
Swept c rest (some (set, c')) =
    (set ≡ socks rest)
    × IsSound c'
    × (c'.active ≡ c.active)
    × (c'.table ≡ c.table)
    × (c'.marker ≡ finish)

socks_cut : (k : ℕ) (ns : List Node) → take k (socks ns) ++ socks (drop k ns) ≡ socks ns
socks_cut zero ns = refl
socks_cut (suc k) [] = refl
socks_cut (suc k) (n ∷ ns) = rw (socks_cut k ns)

-- The nodes before those with which a pass begins.
before :
    (c : Cache) (rest : List Node) → Begins c rest → (pre : List Node) × (c.active ≡ pre ++ rest)
before c rest (inl (m, e)) = ([], sym e)
before c rest (inr (pre, n, ns, e, split, m)) = (pre, split ∙ ap (λ xs. pre ++ xs) (sym e))

module _ (room : ℕ) where
  module _ (c : Cache) (rest : List Node) (pass : Pass) (c' : Cache)
      (p : Passed c (suc room) rest pass c') where
    sweep_ends : drop (suc room) rest ≡ [] → Swept c rest (some (pass.set, c'))
    sweep_ends e = (
      p.set
          ∙ sym (append-nil _)
          ∙ ap (λ xs. take (suc room) (socks rest) ++ socks xs) (sym e)
          ∙ socks_cut (suc room) rest,
      p.sound',
      p.active,
      p.table,
      p.marker ∙ ap place_of e,
    )

    sweep_on :
        (o : Option (List ℕ × Cache))
        → Swept c' (drop (suc room) rest) o
        → Swept c rest (prefix pass.set o)
    sweep_on none h = absurd h
    sweep_on (some (set, c'')) (s, sound, a, t, m) = (
      ap (λ xs. xs ++ set) p.set
          ∙ ap (λ xs. take (suc room) (socks rest) ++ xs) s
          ∙ socks_cut (suc room) rest,
      sound,
      a ∙ p.active,
      t ∙ p.table,
      m,
    )

    Begins-next :
        Begins c rest
        → (left : List Node) → drop (suc room) rest ≡ left
        → 0 < length left
        → Begins c' (drop (suc room) rest)
    Begins-next b [] e more = absurd (omega arith)
    Begins-next b (n ∷ ns) e more =
        let (pre, split) = before c rest b in
        inr (
          pre ++ take (suc room) rest,
          n,
          ns,
          e,
          p.active
              ∙ split
              ∙ ap (λ xs. pre ++ xs) (sym (take-append-drop (suc room) rest))
              ∙ sym (append_assoc pre _ _)
              ∙ ap (λ xs. (pre ++ take (suc room) rest) ++ xs) e,
          p.marker ∙ ap place_of e,
        )

    at_finish :
        (later : Sweep) {at : Place}
        → place_of (drop (suc room) rest) ≡ at
        → Returns (Swept c rest) (joined (is_finish at) pass.set c' later)
        → Returns (Swept c rest) (joined (is_finish c'.marker) pass.set c' later)
    at_finish later e =
        subst (λ b. Returns (Swept c rest) (joined b pass.set c' later))
          (sym (ap is_finish (p.marker ∙ e)))

    joined-Swept :
        (later : Sweep) (left : List Node)
        → drop (suc room) rest ≡ left
        → (0 < length left → Returns (Swept c' (drop (suc room) rest)) later)
        → Returns (Swept c rest) (joined (is_finish c'.marker) pass.set c' later)
    joined-Swept later [] e h = at_finish later (ap place_of e) (sweep_ends e)
    joined-Swept later (n ∷ ns) e h = at_finish later (ap place_of e) (
        Returns-bind (Swept c' (drop (suc room) rest)) (Swept c rest) later _ (h (omega arith))
          sweep_on)

  -- From a sound cache, calls of SetActiveConnections with room for a socket or more, repeated
  -- until one leaves none over, return and give each of the connections from the marker on to
  -- FD_SET once, in order; no more calls are needed than there are such connections. The cache
  -- stays sound, and the next call begins at the head of the list.
  pub sweep-Swept :
      (f : ℕ) (c : Cache) (rest : List Node)
      → IsSound c
      → Begins c rest
      → length rest < f
      → Returns (Swept c rest) (sweep f (suc room) c)
  unfolding sweep
  sweep-Swept zero c rest s b enough = absurd (omega arith)
  sweep-Swept (suc f) c rest s b enough =
      Returns-bind (λ r. Passed c (suc room) rest r.0 r.1) (Swept c rest)
        (set_active_connections (suc room) c) _ (set_active_connections-Passed c s room rest b)
        λ (pass, c') p.
          joined-Swept c rest pass c' p (sweep f (suc room) c') (drop (suc room) rest) refl λ more.
            sweep-Swept f c' (drop (suc room) rest) p.sound'
              (Begins-next c rest pass c' p b (drop (suc room) rest) refl more)
              (omega (arith, length-drop (suc room) rest))
