-- ===== src/ConnectionQueue/Sent.antt =====
-- ProcessOutboundTasks empties its queue, or stops at a message that something is thrown for.
use msg_courier.Prelude.{
  ℕ, zero, suc, ◌+◌, ◌≡◌, ◌≢◌, refl, sym, ap, ◌∙◌, subst, inl, inr, ◌⊎◌, ℤ, pos, negsuc, false,
  none, List, [], ◌∷◌, ◌++◌, append-nil, arith, length, All, All-map,
}
use msg_courier.Memory.{done, throws, Returns, Returns-done}
use msg_courier.Msg.{Msg, ConnectionType, ct_notset, ib_udp, ob_udp, ib_tcp, ob_tcp, internal}
use msg_courier.ConnectionCache.{Cache, in_bounds, get_connection_record}
use msg_courier.ConnectionCache.Sound.{IsSound}
use msg_courier.ConnectionQueue.Outbound.{
  OutHandler, thrown, Outbound, leave, record_by, Sending, popped, stays, after_handler, send_by,
  outbound_loop, process_outbound_tasks,
}
use msg_courier.ConnectionQueue.Sending.{
  IsTameOut, Known, Known-later, Sent, Sent-self, Sent-trans, Step,
}
use msg_courier.ConnectionQueue.Posting.{Popped, send-Popped}

-- The steps of messages that are popped one after the other.
pub data Posts (handle : OutHandler) : Cache → List Msg → Cache → Type 0 where
  nothing : (c : Cache) → Posts handle c [] c
  next :
      (m : Msg) (ms : List Msg) (c c₁ c₂ : Cache)
      → Step handle m c c₁
      → Posts handle c₁ ms c₂
      → Posts handle c (m ∷ ms) c₂

-- All messages were popped and counted, and none is left.
abbrev pub Emptied : OutHandler → Outbound → ℕ × Outbound → Type 0
Emptied handle before (count, o) =
    (count ≡ length before.messages)
    × (o.messages ≡ [])
    × IsSound o.cache
    × Posts handle before.cache before.messages o.cache

-- -1 and 0 stand for no socket.
abbrev pub IsStray : ℤ → Type 0
IsStray (pos zero) = ⊥
IsStray (pos (suc s)) = in_bounds (suc s) ≡ false
IsStray (negsuc zero) = ⊥
IsStray (negsuc (suc n)) = Unit {0}

-- For a message by TCP the look for its record throws, for another one the handler.
abbrev pub IsRefused : OutHandler → Msg → Type 0
IsRefused handle m =
    ((m.connection ≡ ob_tcp) × IsStray m.tcp_socket)
    ⊎ ((m.connection ≢ ob_tcp) × (handle m none ≡ thrown m none))

-- The messages of a list were popped and counted, the others wait, and a second call pops none.
abbrev pub Stuck : OutHandler → Cache → (ms left : List Msg) → ℕ × Outbound → Type 0
Stuck handle c ms left (count, o) =
    (count ≡ length ms)
    × (o.messages ≡ left)
    × IsSound o.cache
    × Posts handle c ms o.cache
    × (process_outbound_tasks handle o ≡ done (0, o))

stray-throws : (z : ℤ) (c : Cache) → IsStray z → get_connection_record z c ≡ throws
unfolding get_connection_record
stray-throws (pos zero) c h = absurd h
stray-throws (pos (suc s)) c h = rw (h, get_connection_record) refl
stray-throws (negsuc zero) c h = absurd h
stray-throws (negsuc (suc n)) c h = refl

no_record :
    (t : ConnectionType) (m : Msg) (c : Cache) → t ≢ ob_tcp → record_by t m c ≡ done (none, c)
unfolding record_by
no_record ob_tcp m c ne = absurd (ne refl)
no_record ct_notset m c ne = refl
no_record ib_udp m c ne = refl
no_record ob_udp m c ne = refl
no_record ib_tcp m c ne = refl
no_record internal m c ne = refl

Popped-cases :
    (handle : OutHandler) (m : Msg) (c : Cache) (s : Sending)
    → Popped handle m c s
    → (c' : Cache) × (s ≡ popped c') × Step handle m c c'
Popped-cases handle m c (popped c') t = (c', refl, t)
Popped-cases handle m c (stays m' c') t = absurd t

module _ (handle : OutHandler) where
  refused-stays : (m : Msg) (c : Cache) → IsRefused handle m → send_by handle m c ≡ done (stays m c)
  unfolding send_by record_by after_handler leave
  refused-stays m c (inl (tcp, stray)) =
      rw (ap (λ t. record_by t m c) tcp ∙ stray-throws m.tcp_socket c stray, send_by) refl
  refused-stays m c (inr (other, e)) = rw (no_record m.connection m c other, send_by) (rw e refl)

  loop-stays :
      (m : Msg) (ms : List Msg) (count : ℕ) (c : Cache)
      → IsRefused handle m
      → outbound_loop handle count (m ∷ ms) c
        ≡ done (count, record { cache = c; messages = m ∷ ms })
  unfolding outbound_loop
  loop-stays m ms count c h = rw (refused-stays m c h, outbound_loop) refl

  module _ (tame : IsTameOut handle) where
    send-pops :
        (m : Msg) (c : Cache)
        → Known c m.connection m
        → IsSound c
        → (c' : Cache) × (send_by handle m c ≡ done (popped c')) × Step handle m c c'
    send-pops m c k sound =
        let (s, ran, t) =
          Returns-done (Popped handle m c) (send_by handle m c)
            (send-Popped handle m c tame sound m.connection refl k) in
        let (c', e, u) = Popped-cases handle m c s t in (c', ran ∙ ap done e, u)

    -- The messages that come before others are popped, one after the other.
    loop-pops :
        (ms tail : List Msg) (count : ℕ) (c : Cache)
        → All (λ m. Known c m.connection m) ms
        → IsSound c
        → (c' : Cache) × (outbound_loop handle count (ms ++ tail) c
            ≡ outbound_loop handle (count + length ms) tail c')
          × Sent c c'
          × Posts handle c ms c'
    unfolding outbound_loop
    loop-pops [] tail count c k sound =
        (c, ap (λ n. outbound_loop handle n tail c) (omega arith), Sent-self c sound, nothing c)
    loop-pops (m ∷ ms) tail count c k sound =
        let (c₁, ran, t) = send-pops m c k.0 sound in
        let (c₂, loops, u, all) =
          loop-pops ms tail (suc count) c₁
            (All-map _ _ ms (λ m'. Known-later m'.connection m' c c₁ t.sent) k.1) t.sent.sound in
        (
          c₂,
          rw (ran, outbound_loop) (loops ∙ ap (λ n. outbound_loop handle n tail c₂) (omega arith)),
          Sent-trans c c₁ c₂ t.sent u,
          next m ms c c₁ c₂ t all,
        )

    -- On a sound cache, where all messages go by UDP, or by TCP without a socket or to one that
    -- the cache knows, and where for such messages the handler returns and leaves what the cache
    -- needs of the record, ProcessOutboundTasks returns: it has popped and counted every message,
    -- and the cache is sound. For each message, in order, the handler was called once, for one by
    -- TCP with the record of its socket; what it leaves of the record is in the cache, unless its
    -- socket is closed: for TCP the socket that the message has afterwards is closed where the
    -- handler asks for it, save -1, and otherwise none is.
    pub process_outbound_tasks-Emptied :
        (o : Outbound)
        → IsSound o.cache
        → All (λ m. Known o.cache m.connection m) o.messages
        → Returns (Emptied handle o) (process_outbound_tasks handle o)
    unfolding process_outbound_tasks outbound_loop
    process_outbound_tasks-Emptied o sound k =
        let (c, ran, t, all) = loop-pops o.messages [] 0 o.cache k sound in
        subst (Returns (Emptied handle o))
          (sym (ap (λ ms. outbound_loop handle 0 ms o.cache) (sym (append-nil o.messages)) ∙ ran))
          (omega arith, refl, t.sound, all)

    -- On a sound cache and with a handler that returns for outbound messages and leaves what the
    -- cache needs of the record: where messages by UDP, or by TCP without a socket or to one that
    -- the cache knows, are followed by one for which something is thrown, ProcessOutboundTasks
    -- pops and counts the former, each after the call of the handler and the closing that belong
    -- to it, and that one stays at the top with all that wait behind it. The cache is sound, and a
    -- second call pops nothing and leaves queue and cache as they are. Something is thrown for a
    -- message by TCP with a socket that is out of bounds and neither 0 nor -1, and for another one
    -- where the handler throws and leaves the message as it was.
    pub process_outbound_tasks-Stuck :
        (ms rest : List Msg) (bad : Msg) (c : Cache)
        → IsSound c
        → All (λ m. Known c m.connection m) ms
        → IsRefused handle bad
        → Returns
            (Stuck handle c ms (bad ∷ rest))
            (process_outbound_tasks handle (record { cache = c; messages = ms ++ bad ∷ rest }))
    unfolding process_outbound_tasks
    process_outbound_tasks-Stuck ms rest bad c sound k refused =
        let (c', ran, t, all) = loop-pops ms (bad ∷ rest) 0 c k sound in
        subst (Returns (Stuck handle c ms (bad ∷ rest)))
          (sym (ran ∙ loop-stays bad rest (0 + length ms) c' refused))
          (omega arith, refl, t.sound, all, loop-stays bad rest 0 c' refused)
