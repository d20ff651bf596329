-- ===== src/Tests/Collecting.antt =====
-- Tests of the intervals that the daemon reports.
use golang_time_tracker.Base.{◌≡◌, refl, ◌&&◌, [], ◌∷◌, arith, if◌then◌else◌}
use golang_time_tracker.Base.Int.{ℤ, pos, leb_ℤ, ltb_ℤ, sub64, wrap64, ◌-ℤ◌, ◌<ℤ◌}
use golang_time_tracker.Base.Halt.{done}
use golang_time_tracker.Base.Text.{codes}
use golang_time_tracker.Escape.{escape, unescape}
use golang_time_tracker.Escape.RoundTrip.{unescape-escape}
use golang_time_tracker.Client.{GetIntervalsResponse}
use golang_time_tracker.Collector.{new_collector, add, add_interval, min, max, add_all, finish}
use golang_time_tracker.Collector.Coverage.{covers, works, collect-covers}
use golang_time_tracker.Collector.Spacing.{IsTimeline}
use golang_time_tracker.Server.Intervals.{intervals_of}
use golang_time_tracker.Server.Intervals.Tallying.{counted, is_open, last_time}
use golang_time_tracker.Server.Intervals.Union.{intervals_of-union}
use golang_time_tracker.Server.Intervals.Report.{intervals_of-covers}
use golang_time_tracker.Tests.Data.{day, gap, morning_tick, later_ticks, day-AreTicks}

three_ticks :
    finish (
      add_all
        (new_collector (pos 0) (pos 9000) (pos 60) (pos 9000))
        (pos 100 ∷ pos 150 ∷ pos 400 ∷ pos 430 ∷ []))
    ≡ record { start = pos 100; end = pos 150; label = [] }
      ∷ record { start = pos 400; end = pos 430; label = [] }
      ∷ []
unfolding finish add_all add add_interval min max new_collector sub64 wrap64 ◌-ℤ◌
three_ticks = refl

unescape-escape_example : unescape (escape (codes "a\\b\"c")) ≡ codes "a\\b\"c"
unescape-escape_example = unescape-escape (codes "a\\b\"c")

collect-covers_example :
    covers (pos 420) (
      finish (
        add_all
          (new_collector (pos 0) (pos 9000) (pos 60) (pos 9000))
          (pos 100 ∷ pos 400 ∷ pos 430 ∷ [])))
    ≡ leb_ℤ (pos 0) (pos 420)
      && ltb_ℤ (pos 420) (pos 9000)
      && works (pos 60) (pos 420) (pos 100 ∷ pos 400 ∷ pos 430 ∷ [])
collect-covers_example =
    collect-covers (pos 0) (pos 9000) (pos 60) (pos 9000) (pos 100) (pos 400 ∷ pos 430 ∷ [])
      (pos 420) (omega arith) (omega arith) (omega arith, omega arith)
      (omega arith, (omega arith, omega arith), (omega arith, (omega arith, omega arith), tt))

intervals_of-union_example :
    intervals_of day gap (pos 1020600) (morning_tick ∷ later_ticks)
    ≡ done (record {
      intervals = finish (
          add_all
            (new_collector day.start day.end gap (pos 1020600))
            (counted day gap (pos 1020600) (morning_tick ∷ later_ticks)));
      end_gap =
          if is_open day gap (pos 1020600) (morning_tick ∷ later_ticks)
          then sub64 (pos 1020600) (last_time (pos 0) (morning_tick ∷ later_ticks))
          else pos 0;
    })
intervals_of-union_example =
    intervals_of-union day gap (pos 1020600) (morning_tick ∷ later_ticks) (omega arith)
      (omega arith, omega arith)
      ((omega arith, omega arith), ((omega arith, omega arith), ((omega arith, omega arith), tt)))

intervals_of-covers_example :
    (resp : GetIntervalsResponse) × (intervals_of day gap (pos 1020600) (morning_tick ∷ later_ticks)
      ≡ done resp)
    × IsTimeline gap day.start day.end resp.intervals
    × ((x : ℤ)
        → covers x resp.intervals
          ≡ leb_ℤ day.start x
            && ltb_ℤ x day.end
            && works gap x (counted day gap (pos 1020600) (morning_tick ∷ later_ticks)))
intervals_of-covers_example =
    intervals_of-covers day gap (pos 1020600) morning_tick later_ticks day-AreTicks

near_night : sub64 (pos 1087000) (pos 1086900) <ℤ gap
unfolding sub64 wrap64 ◌-ℤ◌
near_night = omega arith
