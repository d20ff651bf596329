-- ===== src/Clock.antt =====
-- watch_daemon/clock.go: the clock that the tests set. The operations of the server take what Now
-- returns.
use golang_time_tracker.Base.Int.{ℤ, ◌+ℤ◌}

-- Nanoseconds since the Unix epoch.
pub record TestingClock : Type 0 where
  pub time : ℤ

unfoldable pub now : TestingClock → ℤ
now t = t.time

unfoldable pub add : ℤ → TestingClock → TestingClock
add d t = record { time = t.time +ℤ d }

unfoldable set : ℤ → TestingClock → TestingClock
set to t = record { time = to }
