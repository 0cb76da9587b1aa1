-- ===== src/ConnectionQueue/Sending.antt =====
-- What one round of ProcessOutboundTasks does with a message: the step that it takes.
use msg_courier.Prelude.{
  List, [], ◌∷◌, ◌++◌, ℕ, zero, suc, ◌≡◌, sym, ap, ◌∙◌, inl, inr, ◌⊎◌, ℤ, pos, negsuc, minus_one,
  Bool, true, false, Option, none, some, arith, Bool-cases, ◌==◌, ==_iff,
}
use msg_courier.Memory.{Returns, Returns-map}
use msg_courier.Msg.{Msg, ConnectionType, ct_notset, ib_udp, ob_udp, ib_tcp, ob_tcp, internal}
use msg_courier.Buffer.Valid
use msg_courier.ConnectionCache.{Conn, Cache, in_bounds, put_record, free_connection}
use msg_courier.ConnectionCache.Sound.{IsSound}
use msg_courier.ConnectionCache.Freeing.{
  Freed, free_connection-Freed, put_record_self, put_record_ne,
}
use msg_courier.ConnectionQueue.Inbound.{put_record-IsSound}
use msg_courier.ConnectionQueue.Outbound.{Handled, returned, thrown, OutHandler, pointed}

-- No record gets lost.
pub record Sent (c c' : Cache) : Type 0 where
  pub sound : IsSound c'
  pub stays : (s : ℕ) (r : Conn) → c.table s ≡ some r → (r' : Conn) × (c'.table s ≡ some r')

pub put_record-Sent :
    (s : ℕ) (r r' : Conn) (c : Cache)
    → c.table s ≡ some r
    → IsSound c
    → (r'.state ≡ r.state) × (r'.socketfd ≡ r.socketfd) × (r'.place ≡ r.place)
    → Valid.IsValid r'.buffer
    → Sent c (record c { table = put_record s r' c.table })
put_record-Sent s r r' c e sound (state, fd, place) v = record {
  sound = put_record-IsSound s r r' c sound e state fd place v;
  stays = λ q x e'. elim (Bool-cases (q == s)) [
    | inl same ↦
        (r', ap (put_record s r' c.table) ((==_iff q s).0 same) ∙ put_record_self s r' c.table)
    | inr other ↦ (x, put_record_ne s q r' c.table (λ z. ground (arith, z, other)) ∙ e')
  ];
}

pub Sent-trans : (a b c : Cache) → Sent a b → Sent b c → Sent a c
Sent-trans a b c p q = record {
  sound = q.sound;
  stays = λ s r e. let (r', e') = p.stays s r e in q.stays s r' e';
}

-- No record got lost, and these sockets have been closed.
abbrev pub Cut : Cache → List ℤ → Cache → Type 0
Cut c zs c' = Sent c c' × (c'.closed ≡ c.closed ++ zs) × (zs ≡ [] → c'.table ≡ c.table)

pub free-Cut :
    (s : ℕ) (c : Cache) → IsSound c → Returns (Cut c (pos s ∷ [])) (free_connection (pos s) c)
free-Cut s c sound =
    Returns-map (Freed s c) (Cut c (pos s ∷ [])) (free_connection (pos s) c)
      (free_connection-Freed s c sound)
      λ c' freed. (
        record {
          sound = freed.sound;
          stays = λ q r e. elim (Bool-cases (q == s)) [
            | inl same ↦
                let z = (==_iff q s).0 same in
                let (r', e') = freed.stays r (ap c.table (sym z) ∙ e) in (r', ap c'.table z ∙ e')
            | inr other ↦ (r, freed.others q (λ z. ground (arith, z, other)) ∙ e)
          ];
        },
        freed.calls,
        λ z. absurd (ground (arith, z)),
      )

-- The handler writes a reply: it leaves the fields by which the cache finds the record.
abbrev pub Leaves : Option Conn → Option Conn → Type 0
Leaves none after = Unit
Leaves (some r) none = Unit
Leaves (some r) (some r') =
    ((r'.state ≡ r.state) × (r'.socketfd ≡ r.socketfd) × (r'.place ≡ r.place))
    × (Valid.IsValid r.buffer → Valid.IsValid r'.buffer)

abbrev pub Returned : Option Conn → Handled → Type 0
Returned o (returned m after close) = Leaves o after
Returned o (thrown m after) = ⊥

abbrev pub IsOutbound : ConnectionType → Type 0
IsOutbound ct = (ct ≡ ob_udp) ⊎ (ct ≡ ob_tcp)

-- For an outbound message the handler returns, whether it has sent the message or not.
pub record IsTameOut (handle : OutHandler) : Type 0 where
  pub ends : (m : Msg) (o : Option Conn) → IsOutbound m.connection → Returned o (handle m o)

-- A message by UDP, or by TCP without a socket or to one that the cache knows.
abbrev pub Known : Cache → ConnectionType → Msg → Type 0
Known c ob_udp m = Unit {0}
Known c ob_tcp m =
    (m.tcp_socket ≡ minus_one)
    ⊎ ((s : ℕ) × (r : Conn) × (m.tcp_socket ≡ pos (suc s))
        × (in_bounds (suc s) ≡ true)
        × (c.table (suc s) ≡ some r))
Known c ct_notset m = ⊥
Known c ib_udp m = ⊥
Known c ib_tcp m = ⊥
Known c internal m = ⊥

pub Known-later :
    (t : ConnectionType) (m : Msg) (c c' : Cache) → Sent c c' → Known c t m → Known c' t m
Known-later ob_udp m c c' t k = tt
Known-later ob_tcp m c c' t (inl e) = inl e
Known-later ob_tcp m c c' t (inr (s, r, socket, range, at)) =
    let (r', at') = t.stays (suc s) r at in inr (s, r', socket, range, at')
Known-later ct_notset m c c' t k = absurd k
Known-later ib_udp m c c' t k = absurd k
Known-later ib_tcp m c c' t k = absurd k
Known-later internal m c c' t k = absurd k

pub Sent-self : (c : Cache) → IsSound c → Sent c c
Sent-self c sound = record { sound = sound; stays = λ q x h. (x, h) }

-- The socket whose record the handler is given.
abbrev pub wanted : ConnectionType → ℤ → Option ℕ
wanted ob_tcp (pos zero) = none
wanted ob_tcp (pos (suc s)) = some (suc s)
wanted ob_tcp (negsuc n) = none
wanted ct_notset z = none
wanted ib_udp z = none
wanted ob_udp z = none
wanted ib_tcp z = none
wanted internal z = none

abbrev pub closing_of : ℤ → List ℤ
closing_of (negsuc zero) = []
closing_of (negsuc (suc n)) = negsuc (suc n) ∷ []
closing_of (pos s) = pos s ∷ []

-- What is closed after the handler.
abbrev pub closing : ConnectionType → Bool → ℤ → List ℤ
closing ob_tcp true z = closing_of z
closing ob_tcp false z = []
closing ct_notset close z = []
closing ib_udp close z = []
closing ob_udp close z = []
closing ib_tcp close z = []
closing internal close z = []

abbrev pub or_before : Option Conn → Option Conn → Option Conn
or_before none before = before
or_before (some r) before = some r

-- The handler was called for the message with the record of its socket. What it leaves of the
-- record is in the cache, unless the socket that the message has then was closed at its wish.
pub record Step (handle : OutHandler) (m : Msg) (c c' : Cache) : Type 0 where
  pub sent : Sent c c'
  pub back : Msg
  pub after : Option Conn
  pub close : Bool
  pub ran : handle m (pointed (wanted m.connection m.tcp_socket) c) ≡ returned back after close
  pub closed : c'.closed ≡ c.closed ++ closing back.connection close back.tcp_socket
  pub written :
      closing back.connection close back.tcp_socket ≡ []
      → (s : ℕ) → wanted m.connection m.tcp_socket ≡ some s
      → c'.table s ≡ or_before after (c.table s)
