-- ===== src/Cli/Crash.antt =====
-- A day on which cli/main.go goes down on an answer of GetIntervals (watch_daemon/api_impl.go), and
-- when it does not.
use golang_time_tracker.Base.{◌≡◌, ap, ◌∙◌, Bool, true, List, ◌∷◌, arith}
use golang_time_tracker.Base.Int.{ℤ, pos, sub64, ◌<ℤ◌, ltb_ℤ}
use golang_time_tracker.Base.Halt.{panics, ◌>>=◌}
use golang_time_tracker.Client.{GetIntervalsRequest}
use golang_time_tracker.Database.{TickRow}
use golang_time_tracker.Cli.{day_row, last_interval}
use golang_time_tracker.Server.Intervals.{intervals_of}
use golang_time_tracker.Server.Intervals.Tallying.{last_time}
use golang_time_tracker.Server.Intervals.Report.{AreTicks, end_gap_without_interval}

-- The ticks of the query all lie after the day, and the last of them is before now, by less than
-- the maximal gap; they are in ascending order, more than the maximal gap after the epoch:
-- GetIntervals reports its end gap without an interval, on which dayRow goes down.
pub day_row_crashes :
    (req : GetIntervalsRequest) (gap now : ℤ) (include : Bool) (row : TickRow) (rows : List TickRow)
    → AreTicks gap now (row ∷ rows)
    → req.end <ℤ row.time
    → pos 0 <ℤ sub64 now (last_time row.time rows)
    → sub64 now (last_time row.time rows) <ℤ gap
    → (intervals_of req gap now (row ∷ rows) >>= day_row include) ≡ panics
unfolding day_row last_interval
day_row_crashes req gap now include row rows v late some_gap near =
    let positive : ltb_ℤ (pos 0) (sub64 now (last_time row.time rows)) ≡ true = ground arith in
    ap (λ h. h >>= day_row include) (end_gap_without_interval req gap now row rows v late near)
    ∙ (rw (day_row, positive))
