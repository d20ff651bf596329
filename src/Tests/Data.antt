-- ===== src/Tests/Data.antt =====
-- The inputs that the tests share.
use golang_time_tracker.Base.{ℕ, ◌≤◌, ◌<◌, ◌≢◌, false, List, [], ◌∷◌, none, arith}
use golang_time_tracker.Base.Int.{ℤ, pos}
use golang_time_tracker.Base.Text.{Text, codes}
use golang_time_tracker.Client.{GetIntervalsRequest}
use golang_time_tracker.Database.{Database, TickRow}
use golang_time_tracker.Database.Rules.{IsVerbatim}
use golang_time_tracker.Escape.{quote, backslash}
use golang_time_tracker.Database.Memory.{memory}
use golang_time_tracker.Server.State.{Server}
use golang_time_tracker.Server.Watches.{Watch, Watches, DbWatchInfo}
use golang_time_tracker.Server.Intervals.Report.{AreTicks}

-- A day that starts at 1000000, and a gap of 23 minutes.
abbrev pub day : GetIntervalsRequest
day = record { start = pos 1000000; end = pos 1086400 }

abbrev pub gap : ℤ
gap = pos 1380

abbrev pub morning_tick : TickRow
morning_tick = record { time = pos 1010000; labels = codes "work" }

abbrev pub later_ticks : List TickRow
later_ticks =
    record { time = pos 1010500; labels = codes "play" }
    ∷ record { time = pos 1020000; labels = codes "work" }
    ∷ []

pub day-AreTicks : AreTicks gap (pos 1020600) (morning_tick ∷ later_ticks)
day-AreTicks = record {
  ascend = (
    omega arith,
    (omega arith, omega arith),
    (omega arith, (omega arith, omega arith), (omega arith, (omega arith, omega arith), tt)),
  );
  after_epoch = (omega arith, (omega arith, (omega arith, tt)));
  no_future = omega arith;
  now_time = (omega arith, omega arith);
  gap_time = (omega arith, omega arith);
  gap_nonneg = omega arith;
}

-- A tick shortly after the day.
abbrev pub night_tick : TickRow
night_tick = record { time = pos 1086900; labels = codes "work" }

pub night-AreTicks : AreTicks gap (pos 1087000) (night_tick ∷ [])
night-AreTicks = record {
  ascend = (omega arith, (omega arith, omega arith), tt);
  after_epoch = (omega arith, tt);
  no_future = omega arith;
  now_time = (omega arith, omega arith);
  gap_time = (omega arith, omega arith);
  gap_nonneg = omega arith;
}

abbrev pub watched : Text → DbWatchInfo
watched dir = record { dir = dir; label = codes "w"; last_write = pos 0 }

abbrev pub running : Text → Watch
running dir = record { dir = dir; label = codes "w"; has_pending = 0; cancelled = false }

-- Watches run on /a and /b.
abbrev pub two_watches : Watches
two_watches = record {
  heap = running (codes "/a") ∷ running (codes "/b") ∷ [];
  watches = (codes "/a", 0) ∷ (codes "/b", 1) ∷ [];
}

abbrev pub empty_server : Server memory
empty_server = record {
  max_event_gap = gap;
  db = record { ticks = []; watches = [] };
  db_locked = false;
  watches = two_watches;
}

-- A database whose query for the watches fails.
abbrev pub unreadable : Database
unreadable = record memory { select_watches = λ db. none }

abbrev pub unreadable_server : Server unreadable
unreadable_server = record {
  max_event_gap = gap;
  db = record { ticks = []; watches = [] };
  db_locked = false;
  watches = two_watches;
}

-- Plain printable texts.
abbrev IsVerbatimChar : ℕ → Type 0
IsVerbatimChar c = (32 ≤ c) × (c < 127) × (c ≢ quote) × (c ≢ backslash)

slash-IsVerbatimChar : IsVerbatimChar 47
slash-IsVerbatimChar = (omega arith, omega arith, (λ e. omega arith), (λ e. omega arith))

letter-IsVerbatimChar : (c : ℕ) → 97 ≤ c → c < 123 → IsVerbatimChar c
letter-IsVerbatimChar c lo hi = (omega arith, omega arith, (λ e. ground arith), (λ e. ground arith))

pub a-IsVerbatim : IsVerbatim (codes "/a")
a-IsVerbatim = (slash-IsVerbatimChar, (letter-IsVerbatimChar 97 (omega arith) (omega arith), tt))

pub b-IsVerbatim : IsVerbatim (codes "/b")
b-IsVerbatim = (slash-IsVerbatimChar, (letter-IsVerbatimChar 98 (omega arith) (omega arith), tt))

pub c-IsVerbatim : IsVerbatim (codes "/c")
c-IsVerbatim = (slash-IsVerbatimChar, (letter-IsVerbatimChar 99 (omega arith) (omega arith), tt))

pub w-IsVerbatim : IsVerbatim (codes "w")
w-IsVerbatim = (letter-IsVerbatimChar 119 (omega arith) (omega arith), tt)

pub r-IsVerbatim : IsVerbatim (codes "/r")
r-IsVerbatim = (slash-IsVerbatimChar, (letter-IsVerbatimChar 114 (omega arith) (omega arith), tt))
