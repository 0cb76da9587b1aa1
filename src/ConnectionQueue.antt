-- ===== src/ConnectionQueue.antt =====
-- connectionqueue.cpp: ProcessInboundTasks of cConnectionQueue, which gives each connection of the
-- cache that has something to read to the inbound handler, and frees it where the handler asks for
-- that. The handler is an argument: what it does to the record, and DoCloseConnection after it.
pub mod Inbound
pub mod Tasks
pub mod Round
pub mod Ready
pub mod Rounds
pub mod Outbound
pub mod Sending
pub mod Posting
pub mod Sent
use msg_courier.Prelude.{ℕ, zero, suc, ℤ, Bool, true, false, Option, none, some, List, [], ◌∷◌}
use msg_courier.Memory.{Outcome, done, fault, ◌>>=◌}
use msg_courier.ConnectionCache.{Conn, Cache, put_record, free_connection}
use msg_courier.ConnectionCache.Walk.{reset_enumerator, get_next_set_record}

abbrev pub Handler : Type 0
Handler = ℕ → Conn → Conn × Bool

unfoldable pub close_if : Bool → ℤ → Cache → Outcome Cache
close_if true s c = free_connection s c
close_if false s c = done c

unfoldable pub handle_record : Handler → ℕ → Option Conn → Cache → Outcome Cache
unfolding put_record close_if
handle_record handle s none c = fault
handle_record handle s (some r) c =
    let after = (handle s r).0 in
    close_if (handle s r).1 after.socketfd (record c { table = put_record s after c.table })

abbrev pub Tasks : Type 0
Tasks = Outcome (Option (List ℕ × Cache))

abbrev pub add_task : ℕ → Option (List ℕ × Cache) → Option (List ℕ × Cache)
add_task s none = none
add_task s (some (ss, c)) = some (s ∷ ss, c)

-- The records that were handled, in order; none means that the fuel ran out.
unfoldable pub inbound_loop : ℕ → Handler → (ℤ → Bool) → Cache → Tasks
unfolding handle_record
inbound_loop zero handle isset c = done none
inbound_loop (suc f) handle isset c = do
  (rec, c') ← get_next_set_record isset c
  elim rec [
    | none ↦ done (some ([], c'))
    | some s ↦ do
      c'' ← handle_record handle s (c'.table s) c'
      rest ← inbound_loop f handle isset c''
      done (add_task s rest)
  ]

unfoldable pub process_inbound_tasks : ℕ → Handler → (ℤ → Bool) → Cache → Tasks
unfolding inbound_loop
process_inbound_tasks fuel handle isset c = inbound_loop fuel handle isset (reset_enumerator c)
