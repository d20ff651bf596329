-- ===== src/Tests/Printing.antt =====
-- Tests of the command line's part.
use golang_time_tracker.Base.{ℕ, ◌+◌, ◌/◌, ◌%◌, ◌≡◌, refl, true, false, none, [], ◌∷◌, ◌++◌, arith}
use golang_time_tracker.Base.Int.{pos, sub64, wrap64, ◌-ℤ◌, ◌+ℤ◌, ◌<ℤ◌}
use golang_time_tracker.Base.Halt.{done, panics, ◌>>=◌}
use golang_time_tracker.Client.{GetIntervalsResponse}
use golang_time_tracker.Collector.Spacing.{IsTimeline}
use golang_time_tracker.Server.Intervals.{intervals_of}
use golang_time_tracker.Cli.{Row, day_row}
use golang_time_tracker.Cli.Totals.{worked, day_row_lem}
use golang_time_tracker.Cli.Crash.{day_row_crashes}
use golang_time_tracker.Cli.Bar.{block_mask, best_block, bar}
use golang_time_tracker.Cli.Bar.Terminal.{plain, cells}
use golang_time_tracker.Cli.Bar.Marks.{backgrounds, marks, bar-marks}
use golang_time_tracker.Cli.Bar.Closest.{IsClosest, differing, best_block-IsClosest}
use golang_time_tracker.Tests.Data.{day, gap, night_tick, night-AreTicks}

-- Half an hour, and an hour and 40 minutes of which the last 100 seconds are the end gap.
abbrev working_day : GetIntervalsResponse
working_day = record {
  intervals =
      record { start = pos 1010000; end = pos 1011800; label = [] }
      ∷ record { start = pos 1020000; end = pos 1026000; label = [] }
      ∷ [];
  end_gap = pos 100;
}

hours_of_working_day : worked 100 working_day.intervals ≡ 5900
unfolding worked
hours_of_working_day = refl

working_day-IsTimeline : IsTimeline gap (pos 1000000) (pos (1000000 + 86400)) working_day.intervals
unfolding ◌+ℤ◌
working_day-IsTimeline = record {
  within = ((omega arith, omega arith, omega arith), ((omega arith, omega arith, omega arith), tt));
  spaced = ((omega arith, tt), (tt, tt));
}

day_row_lem_example :
    (row : Row) × (day_row true working_day ≡ done row)
    × (row.hours ≡ pos (worked 100 working_day.intervals / 3600))
    × (row.minutes ≡ pos (worked 100 working_day.intervals % 3600 / 60))
day_row_lem_example =
    day_row_lem gap 1000000 100 true working_day (omega arith) (omega arith) (omega arith) refl
      (λ e. cc) working_day-IsTimeline

night_gap :
    (pos 0 <ℤ sub64 (pos 1087000) (pos 1086900)) × (sub64 (pos 1087000) (pos 1086900) <ℤ gap)
unfolding sub64 wrap64 ◌-ℤ◌
night_gap = (omega arith, omega arith)

day_row_crashes_example :
    (intervals_of day gap (pos 1087000) (night_tick ∷ []) >>= day_row false) ≡ panics
day_row_crashes_example =
    day_row_crashes day gap (pos 1087000) false night_tick [] night-AreTicks (omega arith)
      night_gap.0 night_gap.1

bar-marks_example :
    backgrounds (cells (bar (pos 1000000) working_day.intervals) plain)
    ≡ (none ∷ marks 60) ++ none ∷ []
bar-marks_example = bar-marks (pos 1000000) working_day.intervals

-- 00011101: the closest block leaves out the single bit that is off.
best_block-IsClosest_example :
    (i : ℕ) × (best_block 29 ≡ pos i) × IsClosest (differing 29) 0 block_mask i
best_block-IsClosest_example = best_block-IsClosest 29 (omega arith)
