-- ===== src/ConnectionQueue/Inbound.antt =====
-- ProcessInboundTasks on a sound cache.
use msg_courier.Prelude.{
  ℕ, ◌≡◌, ◌≢◌, refl, sym, ap, ◌∙◌, subst, ℤ, pos, Bool, true, false, not, ◌&&◌, ◌||◌, ltb, Option,
  none, some, List, [], ◌∷◌, ◌++◌, arith, ◌==◌, if◌then◌else◌, All, All-map, filter, inl, inr, ◌⊎◌,
  Bool-cases, ==_iff,
}
use msg_courier.Memory.{done, ◌>>=◌, Returns, Returns-map}
use msg_courier.MsgPool.Cells.{Absent, Distinct}
use msg_courier.Buffer.{get_buffer_count}
use msg_courier.Buffer.Valid
use msg_courier.ConnectionCache.{
  ConnState, crs_free, crs_waiting, is_waiting, is_none, Conn, Node, Table, Cache, finish,
  put_record, free_connection,
}
use msg_courier.ConnectionCache.Walk.{place_of, record_of, from_place, is_set, next_loop}
use msg_courier.ConnectionCache.Nodes.{ids, socks, without, Distinct-middle}
use msg_courier.ConnectionCache.Sound.{IsLinked, IsSound}
use msg_courier.ConnectionCache.Freeing.{
  Freed, free_connection-Freed, put_record_self, put_record_ne, put_record_keeps,
  IsLinked-put_record,
}
use msg_courier.ConnectionCache.Passes.{from_id-append}
use msg_courier.ConnectionQueue.{Handler, close_if, handle_record}

-- The handler reads and replies: it leaves the fields by which the cache finds the record.
pub record IsTame (handle : Handler) : Type 0 where
  pub state : (s : ℕ) (r : Conn) → (handle s r).0.state ≡ r.state
  pub socketfd : (s : ℕ) (r : Conn) → (handle s r).0.socketfd ≡ r.socketfd
  pub place : (s : ℕ) (r : Conn) → (handle s r).0.place ≡ r.place
  pub buffer : (s : ℕ) (r : Conn) → Valid.IsValid r.buffer → Valid.IsValid (handle s r).0.buffer

module _ (s : ℕ) (r r' : Conn) (c : Cache) (sound : IsSound c) (e : c.table s ≡ some r)
    (state : r'.state ≡ r.state) (socketfd : r'.socketfd ≡ r.socketfd) (place : r'.place ≡ r.place)
    (buffer : Valid.IsValid r'.buffer) where
  IsLinked-put : (n : Node) → IsLinked c.table n → IsLinked (put_record s r' c.table) n
  IsLinked-put n k = elim (Bool-cases (n.sock == s)) [
    | inl same ↦
        let q = (==_iff n.sock s).0 same in
        let is_r : k.conn ≡ r = ground (arith, k.at, ap c.table q, e) in
        record {
          conn = r';
          at = ap (put_record s r' c.table) q ∙ put_record_self s r' c.table;
          waiting = state ∙ sym (ap (λ x. x.state) is_r) ∙ k.waiting;
          own = socketfd ∙ sym (ap (λ x. x.socketfd) is_r) ∙ k.own;
          back = place ∙ sym (ap (λ x. x.place) is_r) ∙ k.back;
          bounded = k.bounded;
        }
    | inr other ↦ IsLinked-put_record s r' c.table n (k, λ q. ground (arith, other, q))
  ]

  pub put_record-IsSound : IsSound (record c { table = put_record s r' c.table })
  put_record-IsSound = record {
    once = sound.once;
    numbered = sound.numbered;
    below = sound.below;
    linked = All-map _ _ c.active IsLinked-put sound.linked;
    idle =
        put_record_keeps s c sound (λ q x. Absent q (socks c.active) → x.place ≡ finish) r'
          (λ a. place ∙ sound.idle s r e a) (λ q x ne e'. sound.idle q x e');
    buffers =
        put_record_keeps s c sound (λ q x. Valid.IsValid x.buffer) r' buffer
          (λ q x ne e'. sound.buffers q x e');
  }

-- A connection is to be handled, by its state, its handler and whether there is something to read.
abbrev pub attended : ConnState → Option ℕ → Bool → Bool
attended crs_waiting none more = more
attended crs_waiting (some h) more = false
attended crs_free h more = false

set-attended :
    (state : ConnState) (h : Option ℕ) (more : Bool)
    → (is_waiting state && is_none h && more) ≡ attended state h more
set-attended crs_waiting none more = refl
set-attended crs_waiting (some h) more = refl
set-attended crs_free h more = refl

module _ (isset : ℤ → Bool) where
  abbrev pub ready_conn : Option Conn → Bool
  ready_conn none = false
  ready_conn (some r) = attended r.state r.active_handler (isset r.socketfd || ltb 0 r.buffer.tail)

  is_set_lem : (r : Conn) → is_set isset r ≡ ready_conn (some r)
  unfolding is_set get_buffer_count
  is_set_lem r = set-attended r.state r.active_handler (isset r.socketfd || ltb 0 r.buffer.tail)

  abbrev pub is_ready_at : Table → Node → Bool
  is_ready_at t n = ready_conn (t n.sock)

  -- Where GetNextSetRecord stops.
  pub record Stops (t : Table) (rest : List Node) (n : Node) (ns : List Node) : Type 0 where
    pub skipped : List Node
    pub split : rest ≡ skipped ++ n ∷ ns
    pub unready : All (λ m. is_ready_at t m ≡ false) skipped
    pub ready : is_ready_at t n ≡ true

  pub next_loop-Stops :
      (t : Table) (rest : List Node)
      → All (IsLinked t) rest
      → ((next_loop isset t rest ≡ done (none, [])) × All (λ m. is_ready_at t m ≡ false) rest)
        ⊎ ((n : Node) × (ns : List Node) × (next_loop isset t rest ≡ done (some n.sock, ns))
            × Stops t rest n ns)
  unfolding next_loop record_of
  next_loop-Stops t [] k = inl (refl, tt)
  next_loop-Stops t (n ∷ ns) k = elim (Bool-cases (is_set isset k.0.conn)) [
    | inl good ↦ inr (
      n,
      ns,
      rw (k.0.at, record_of) (rw (good, ◌>>=◌) refl),
      record {
        skipped = [];
        split = refl;
        unready = tt;
        ready = ap ready_conn k.0.at ∙ sym (is_set_lem k.0.conn) ∙ good;
      },
    )
    | inr bad ↦
        let step : next_loop isset t (n ∷ ns) ≡ next_loop isset t ns =
          rw (k.0.at, record_of) (rw (bad, ◌>>=◌) refl) in
        elim (next_loop-Stops t ns k.1) [
          | inl (ran, none_left) ↦
              inl (step ∙ ran, (ap ready_conn k.0.at ∙ sym (is_set_lem k.0.conn) ∙ bad, none_left))
          | inr (m, ms, ran, stops) ↦ inr (
            m,
            ms,
            step ∙ ran,
            record {
              skipped = n ∷ stops.skipped;
              split = ap (λ xs. n ∷ xs) stops.split;
              unready = (ap ready_conn k.0.at ∙ sym (is_set_lem k.0.conn) ∙ bad, stops.unready);
              ready = stops.ready;
            },
          )
        ]
  ]

pub from_place-done :
    (pre rest : List Node)
    → Distinct (ids (pre ++ rest))
    → from_place (place_of rest) (pre ++ rest) ≡ done rest
unfolding from_place
from_place-done pre [] d = refl
from_place-done pre (n ∷ ns) d = from_id-append pre n ns d

module _ (handle : Handler) (tame : IsTame handle) (isset : ℤ → Bool) where
  abbrev pub closes_conn : Option Conn → ℕ → Bool
  closes_conn none s = false
  closes_conn (some r) s = ready_conn isset (some r) && (handle s r).1

  -- The connection is ready, and the handler asks for its end.
  abbrev pub is_closed_at : Table → Node → Bool
  is_closed_at t n = closes_conn (t n.sock) n.sock

  -- The ready connections of `rest` are handled once each and in order, and those that are to be
  -- closed are off the list.
  abbrev pub Tended : Cache → (pre rest : List Node) → Option (List ℕ × Cache) → Type 0
  Tended c pre rest none = ⊥
  Tended c pre rest (some (ss, c')) =
      (ss ≡ socks (filter (is_ready_at isset c.table) rest))
      × (c'.active ≡ pre ++ filter (λ n. not (is_closed_at c.table n)) rest)
      × IsSound c'
      × (c'.marker ≡ c.marker)

  -- The cache after the handler has seen node n, the first of those from n on.
  pub record Handled (c : Cache) (pre : List Node) (n : Node) (ns : List Node) (c' : Cache)
      : Type 0 where
    pub sound : IsSound c'
    pub place : c'.cursor ≡ place_of ns
    pub mark : c'.marker ≡ c.marker
    pub active : c'.active ≡ pre ++ ((if is_closed_at c.table n then [] else n ∷ []) ++ ns)
    pub others : (q : ℕ) → q ≢ n.sock → c'.table q ≡ c.table q

  module _ (c : Cache) (pre : List Node) (n : Node) (ns : List Node) (k : IsLinked c.table n)
      (sound : IsSound c) (split : c.active ≡ pre ++ n ∷ ns) (place : c.cursor ≡ place_of ns)
      (ready : is_ready_at isset c.table n ≡ true) where
    abbrev after : Conn
    after = (handle n.sock k.conn).0

    abbrev stored : Cache
    stored = record c { table = put_record n.sock after c.table }

    stored-IsSound : IsSound stored
    stored-IsSound =
        put_record-IsSound n.sock k.conn after c sound k.at (tame.state n.sock k.conn)
          (tame.socketfd n.sock k.conn) (tame.place n.sock k.conn)
          (tame.buffer n.sock k.conn (sound.buffers n.sock k.conn k.at))

    closed_at : is_closed_at c.table n ≡ (handle n.sock k.conn).1
    closed_at =
        ap (λ o. closes_conn o n.sock) k.at
        ∙ ap (λ b. b && (handle n.sock k.conn).1) (sym (ap (ready_conn isset) k.at) ∙ ready)

    abbrev left_if : Bool → List Node
    left_if b = pre ++ ((if b then [] else n ∷ []) ++ ns)

    pub handle_record-Handled :
        Returns (Handled c pre n ns) (handle_record handle n.sock (c.table n.sock) c)
    unfolding handle_record close_if
    handle_record-Handled = elim (Bool-cases ((handle n.sock k.conn).1)) [
      | inl close ↦
          rw (k.at, handle_record)
            (rw (close, close_if)
              (subst (λ z. Returns (Handled c pre n ns) (free_connection z stored))
                (sym (tame.socketfd n.sock k.conn ∙ k.own))
                (Returns-map (Freed n.sock stored) (Handled c pre n ns)
                  (free_connection (pos n.sock) stored)
                  (free_connection-Freed n.sock stored stored-IsSound)
                  λ c' freed. record {
                    sound = freed.sound;
                    place = freed.place ∙ place;
                    mark = freed.mark;
                    active =
                        freed.rest
                        ∙ ap (without n.sock) split
                        ∙ (Distinct-middle pre n ns
                            (subst (λ xs. Distinct (socks xs)) split sound.once)).1
                        ∙ ap left_if (sym (closed_at ∙ close));
                    others = λ q ne. freed.others q ne ∙ put_record_ne n.sock q after c.table ne;
                  })))
      | inr keep ↦
          rw (k.at, handle_record)
            (rw (keep, close_if)
              (record {
                sound = stored-IsSound;
                place = place;
                mark = refl;
                active = split ∙ ap left_if (sym (closed_at ∙ keep));
                others = λ q ne. put_record_ne n.sock q after c.table ne;
              }))
    ]
