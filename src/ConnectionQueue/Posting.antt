-- ===== src/ConnectionQueue/Posting.antt =====
-- A round of ProcessOutboundTasks with a message that goes out takes its step.
use msg_courier.Prelude.{
  List, [], ◌∷◌, ◌++◌, append-nil, ℕ, zero, suc, ◌≡◌, refl, sym, ap, ◌∙◌, subst, inl, inr, ℤ, pos,
  negsuc, Bool, true, false, Option, none, some, arith,
}
use msg_courier.Memory.{done, Returns, Returns-done}
use msg_courier.Msg.{Msg, ConnectionType, ct_notset, ib_udp, ob_udp, ib_tcp, ob_tcp, internal}
use msg_courier.ConnectionCache.{
  Conn, Cache, in_bounds, put_record, or_blank, free_connection, close_socket,
  get_connection_record,
}
use msg_courier.ConnectionCache.Sound.{IsSound}
use msg_courier.ConnectionCache.Freeing.{put_record_self}
use msg_courier.ConnectionQueue.{close_if}
use msg_courier.ConnectionQueue.Outbound.{
  Handled, returned, thrown, OutHandler, leave, pointed, record_by, Sending, popped, stays,
  caught_by, close_by, after_handler, send_by,
}
use msg_courier.ConnectionQueue.Sending.{
  Sent, put_record-Sent, Sent-trans, Cut, free-Cut, Leaves, Returned, IsOutbound, IsTameOut, Known,
  Sent-self, wanted, closing_of, closing, or_before, Step,
}

abbrev pub Popped : OutHandler → Msg → Cache → Sending → Type 0
Popped handle m c (popped c') = Step handle m c c'
Popped handle m c (stays m' c') = ⊥

abbrev After : Cache → List ℤ → Sending → Type 0
After c zs (popped c') = Cut c zs c'
After c zs (stays m c') = ⊥

closed-Sent : (z : ℤ) (c : Cache) → IsSound c → Sent c (close_socket z c)
unfolding close_socket
closed-Sent z c sound = record {
  sound = record {
    once = sound.once;
    numbered = sound.numbered;
    below = sound.below;
    linked = sound.linked;
    idle = sound.idle;
    buffers = sound.buffers;
  };
  stays = λ q x h. (x, h);
}

nothing-Cut : (c : Cache) → IsSound c → Cut c [] c
nothing-Cut c sound = (Sent-self c sound, sym (append-nil c.closed), λ z. refl)

free-After :
    (z : ℤ) (m : Msg) (c : Cache)
    → IsSound c
    → Returns (After c (closing_of z)) (caught_by (free_connection z c) m c)
unfolding free_connection
free-After (negsuc zero) m c sound = nothing-Cut c sound
free-After (negsuc (suc n)) m c sound = (
  closed-Sent (negsuc (suc n)) c sound,
  unfold close_socket in refl,
  λ z. absurd (ground (arith, z)),
)
free-After (pos s) m c sound =
    let (c₂, ran, u) =
      Returns-done (Cut c (pos s ∷ [])) (free_connection (pos s) c) (free-Cut s c sound) in
    subst (λ o. Returns (After c (pos s ∷ [])) (caught_by o m c)) (sym ran) u

close_by-After :
    (ct : ConnectionType) (close : Bool) (m : Msg) (c : Cache)
    → IsSound c
    → Returns (After c (closing ct close m.tcp_socket)) (close_by ct close m c)
unfolding close_by close_if
close_by-After ob_tcp true m c sound = free-After m.tcp_socket m c sound
close_by-After ob_tcp false m c sound = nothing-Cut c sound
close_by-After ct_notset close m c sound = nothing-Cut c sound
close_by-After ib_udp close m c sound = nothing-Cut c sound
close_by-After ob_udp close m c sound = nothing-Cut c sound
close_by-After ib_tcp close m c sound = nothing-Cut c sound
close_by-After internal close m c sound = nothing-Cut c sound

leave-Sent :
    (s : ℕ) (r : Conn) (c : Cache) (after : Option Conn)
    → Leaves (some r) after
    → c.table s ≡ some r
    → IsSound c
    → Sent c (leave (some s) after c)
unfolding leave
leave-Sent s r c none h at sound = Sent-self c sound
leave-Sent s r c (some r') h at sound =
    put_record-Sent s r r' c at sound h.0 (h.1 (sound.buffers s r at))

leave-table :
    (s : ℕ) (after : Option Conn) (c : Cache)
    → ((leave (some s) after c).table s ≡ or_before after (c.table s))
      × ((leave (some s) after c).closed ≡ c.closed)
unfolding leave
leave-table s none c = (refl, refl)
leave-table s (some r) c = (put_record_self s r c.table, refl)

-- The handler was given no record, or that of a socket.
module _ (handle : OutHandler) (m : Msg) (c : Cache) where
  none-Popped :
      (h : Handled)
      → handle m none ≡ h
      → wanted m.connection m.tcp_socket ≡ none
      → IsSound c
      → Returned none h
      → Returns (Popped handle m c) (after_handler none c h)
  unfolding after_handler leave
  none-Popped (returned back after close) ran looks sound k =
      let (s, done_so, cut) =
        Returns-done (After c (closing back.connection close back.tcp_socket))
          (close_by back.connection close back c)
          (close_by-After back.connection close back c sound) in
      rw done_so (popped_none s cut)
    where
      popped_none :
          (s : Sending)
          → After c (closing back.connection close back.tcp_socket) s
          → Popped handle m c s
      popped_none (stays m' c') cut = absurd cut
      popped_none (popped c') cut = record {
        sent = cut.0;
        back = back;
        after = after;
        close = close;
        ran = ap (λ o. handle m (pointed o c)) looks ∙ ran;
        closed = cut.1;
        written = λ e s z. absurd (ground (arith, looks, z));
      }
  none-Popped (thrown back after) ran looks sound k = absurd k

  some-Popped :
      (h : Handled) (s : ℕ) (r : Conn) (c₁ : Cache)
      → handle m (some r) ≡ h
      → wanted m.connection m.tcp_socket ≡ some s
      → c.table s ≡ some r
      → Sent c c₁
      → c₁.closed ≡ c.closed
      → c₁.table s ≡ some r
      → Returned (some r) h
      → Returns (Popped handle m c) (after_handler (some s) c₁ h)
  unfolding after_handler
  some-Popped (returned back after close) s r c₁ ran looks was t quiet at k =
      let c₂ = leave (some s) after c₁ in
      let t₂ = leave-Sent s r c₁ after k at t.sound in
      let (x, done_so, cut) =
        Returns-done (After c₂ (closing back.connection close back.tcp_socket))
          (close_by back.connection close back c₂)
          (close_by-After back.connection close back c₂ t₂.sound) in
      rw done_so (popped_some t₂ x cut)
    where
      popped_some :
          Sent c₁ (leave (some s) after c₁)
          → (x : Sending)
          → After (leave (some s) after c₁) (closing back.connection close back.tcp_socket) x
          → Popped handle m c x
      popped_some t₂ (stays m' c') cut = absurd cut
      popped_some t₂ (popped c') cut =
          let (wrote, quiet₂) = leave-table s after c₁ in
          record {
            sent = Sent-trans c c₁ c' t (Sent-trans c₁ _ c' t₂ cut.0);
            back = back;
            after = after;
            close = close;
            ran = ap (λ o. handle m (pointed o c)) looks ∙ ap (handle m) was ∙ ran;
            closed =
                cut.1
                ∙ ap (λ zs. zs ++ closing back.connection close back.tcp_socket) (quiet₂ ∙ quiet);
            written = λ e s' z.
                subst (λ q. c'.table q ≡ or_before after (c.table q)) (ground (arith, looks, z))
                  (ap (λ f. f s) (cut.2 e) ∙ wrote ∙ ap (or_before after) (at ∙ sym was));
          }
  some-Popped (thrown back after) s r c₁ ran looks was t quiet at k = absurd k

-- The record is found, and found again behind the pointer.
abbrev asked : ℕ → Conn → Cache → Cache
asked s r c = record c { table = put_record s r c.table }

get_record-known :
    (s : ℕ) (r : Conn) (c : Cache)
    → in_bounds (suc s) ≡ true
    → c.table (suc s) ≡ some r
    → get_connection_record (pos (suc s)) c ≡ done (some (suc s), asked (suc s) r c)
unfolding get_connection_record or_blank
get_record-known s r c range e =
    rw (range, get_connection_record)
      (ap (λ o. done (some (suc s), asked (suc s) (or_blank o) c)) e)

module _ (handle : OutHandler) (m : Msg) (c : Cache) where
  -- The round, after the record has been looked up.
  send-found :
      (rec : Option ℕ) (c₁ : Cache)
      → record_by m.connection m c ≡ done (rec, c₁)
      → send_by handle m c ≡ after_handler rec c₁ (handle m (pointed rec c₁))
  unfolding send_by
  send-found rec c₁ e = rw (e, send_by) refl

  module _ (tame : IsTameOut handle) (sound : IsSound c) where
    without_record :
        record_by m.connection m c ≡ done (none, c)
        → wanted m.connection m.tcp_socket ≡ none
        → IsOutbound m.connection
        → Returns (Popped handle m c) (send_by handle m c)
    without_record e looks out =
        rw (send-found none c e)
          (none-Popped handle m c (handle m none) refl looks sound (tame.ends m none out))

    with_record :
        (s : ℕ) (r : Conn)
        → record_by m.connection m c ≡ done (some s, asked s r c)
        → wanted m.connection m.tcp_socket ≡ some s
        → c.table s ≡ some r
        → IsOutbound m.connection
        → Returns (Popped handle m c) (send_by handle m c)
    with_record s r e looks at out =
        let c₁ = asked s r c in
        let here : c₁.table s ≡ some r = put_record_self s r c.table in
        rw (send-found (some s) c₁ e) (
          subst (λ o. Returns (Popped handle m c) (after_handler (some s) c₁ (handle m o)))
            (sym here)
            (some-Popped handle m c (handle m (some r)) s r c₁ refl looks at
              (put_record-Sent s r r c at sound (refl, refl, refl) (sound.buffers s r at)) refl here
              (tame.ends m (some r) out)))

    pub send-Popped :
        (ct : ConnectionType)
        → m.connection ≡ ct
        → Known c ct m
        → Returns (Popped handle m c) (send_by handle m c)
    unfolding record_by
    send-Popped ob_udp e k =
        without_record (ap (λ t. record_by t m c) e) (ap (λ t. wanted t m.tcp_socket) e) (inl e)
    send-Popped ob_tcp e (inl socket) =
        without_record
          (ap (λ t. record_by t m c) e
            ∙ ap (λ z. get_connection_record z c) socket
            ∙ unfold get_connection_record in refl)
          (ap (λ t. wanted t m.tcp_socket) e ∙ ap (wanted ob_tcp) socket) (inr e)
    send-Popped ob_tcp e (inr (s, r, socket, range, at)) =
        with_record (suc s) r
          (ap (λ t. record_by t m c) e
            ∙ ap (λ z. get_connection_record z c) socket
            ∙ get_record-known s r c range at)
          (ap (λ t. wanted t m.tcp_socket) e ∙ ap (wanted ob_tcp) socket) at (inr e)
    send-Popped ct_notset e k = absurd k
    send-Popped ib_udp e k = absurd k
    send-Popped ib_tcp e k = absurd k
    send-Popped internal e k = absurd k
