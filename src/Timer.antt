-- ===== src/Timer.antt =====
-- timer.cpp: cTimer. The time of time(0) is an argument; the initial m_timestamp is 0.
use msg_courier.Prelude.{ℕ, ◌+◌, Bool, true, false, leb, if◌then◌else◌}

pub record Timer : Type 0 where
  pub stopped : Bool
  pub seconds : ℕ
  pub timestamp : ℕ

unfoldable pub new_timer : Timer
new_timer = record { stopped = true; seconds = 0; timestamp = 0 }

unfoldable pub set_interval : ℕ → Timer → Timer
set_interval seconds t = record t { seconds = seconds }

unfoldable pub reset_timer : ℕ → Timer → Timer
reset_timer now t = record t { timestamp = now + t.seconds; stopped = false }

unfoldable pub start : ℕ → Timer → Timer
unfolding reset_timer
start now t = reset_timer now t

unfoldable pub stop : Timer → Timer
stop t = record t { stopped = true }

unfoldable pub is_ready : ℕ → Timer → Bool
is_ready now t = if t.stopped then false else leb t.timestamp now
