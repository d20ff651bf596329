-- ===== src/Cli.antt =====
-- cli/main.go and cli/cmdutil.go: what the commands of `t` make of the daemon's answers.
pub mod Bar
pub mod Totals
pub mod Crash
pub mod Arguments
pub mod Rows
use golang_time_tracker.Base.{
  ℕ, ◌+◌, ◌-◌, ◌*◌, ◌==◌, ltb, Bool, true, false, ◌&&◌, not, List, [], ◌∷◌, Option, none, some,
  if◌then◌else◌, length,
}
use golang_time_tracker.Base.Int.{quot, rem, ℤ, pos, negsuc, add64, sub64, wrap64, ltb_ℤ}
use golang_time_tracker.Base.Halt.{Halt, done, panics}
use golang_time_tracker.Base.Text.{Text}
use golang_time_tracker.Client.{Interval, GetIntervalsResponse}

abbrev pub s_minute : ℕ
s_minute = 60

abbrev pub s_hour : ℕ
s_hour = 60 * s_minute

-- time.Second, in nanoseconds
abbrev pub second : ℕ
second = 1000000000

-- `a * n` for a positive `n`, without an overflow.
unfoldable pub scale : ℤ → ℕ → ℤ
scale (pos a) n = pos (a * n)
scale (negsuc a) n = negsuc (a * n + n - 1)

-- time.Duration(d) * time.Second
unfoldable pub seconds : ℤ → ℤ
unfolding scale
seconds d = wrap64 (scale d second)

abbrev pub is_last : List Interval → Bool
is_last [] = true
is_last (iv ∷ ivs) = false

-- A round of the loop of dayRow, which leaves out an interval shorter than an hour.
unfoldable pub work_round : ℤ → Interval → Bool → ℤ → ℤ
work_round end_gap iv last work =
    if ltb_ℤ (sub64 iv.end iv.start) (pos s_hour)
    then work
    else let more = add64 work (seconds (sub64 iv.end iv.start)) in
      if last then sub64 more (seconds end_gap) else more

unfoldable pub work_duration : ℤ → List Interval → ℤ → ℤ
unfolding work_round
work_duration end_gap [] work = work
work_duration end_gap (iv ∷ ivs) work =
    work_duration end_gap ivs (work_round end_gap iv (is_last ivs) work)

-- What dayRow prints: the time worked, the minutes to go if there are any, and the intervals that
-- the bar shows.
pub record Row : Type 0 where
  pub hours : ℤ
  pub minutes : ℤ
  pub to_go : Option ℤ
  pub shown : List Interval

-- &resp.Intervals[len(resp.Intervals)-1], and the intervals with the end of that one moved.
unfoldable pub last_interval : List Interval → Option Interval
last_interval [] = none
last_interval (iv ∷ ivs) = elim (last_interval ivs) [ none ↦ some iv | some last ↦ some last ]

unfoldable pub shorten_last : ℤ → List Interval → List Interval
shorten_last gap [] = []
shorten_last gap (iv ∷ ivs) =
    let rest = shorten_last gap ivs in
    if is_last ivs then record iv { end = sub64 iv.end gap } ∷ [] else iv ∷ rest

unfoldable pub minutes_to_go : ℤ → Interval → Option ℤ
minutes_to_go end_gap iv =
    let remaining = add64 (sub64 (pos s_hour) (sub64 iv.end iv.start)) end_gap in
    if ltb_ℤ (pos 0) remaining then some (quot remaining s_minute) else none

-- dayRow, with the daemon's answer for the day. With an end gap and no interval, the index is -1.
unfoldable pub day_row : Bool → GetIntervalsResponse → Halt Row
unfolding work_duration minutes_to_go last_interval shorten_last
day_row include_end_gap resp =
    let work = work_duration resp.end_gap resp.intervals (pos 0) in
    let hours = quot work (s_hour * second) in
    let minutes = quot (rem work (s_hour * second)) (s_minute * second) in
    if not (ltb_ℤ (pos 0) resp.end_gap)
    then done (record { hours = hours; minutes = minutes; to_go = none; shown = resp.intervals })
    else elim (last_interval resp.intervals) [
      | none ↦ panics
      | some last ↦ done (record {
        hours = hours;
        minutes = minutes;
        to_go = minutes_to_go resp.end_gap last;
        shown =
            if include_end_gap then resp.intervals else shorten_last resp.end_gap resp.intervals;
      })
    ]

-- What ends a command with the exit code 1: too many or few arguments, or an error of its own.
pub data CommandError : Type 0 where
  invalid_bounds : ℕ → ℕ → CommandError
  expected_exactly expected_at_least expected_at_most : ℕ → ℕ → CommandError
  failed : CommandError

-- UnboundedCommand: `f` says whether the command itself succeeds.
unfoldable unbounded_command : (List Text → Bool) → List Text → Option CommandError
unbounded_command f args = if f args then none else some failed

-- BoundedCommand: `f` says whether the command itself succeeds.
unfoldable pub bounded_command : ℕ → ℕ → (List Text → Bool) → List Text → Option CommandError
bounded_command minargs maxargs f args =
    let argc = length args in
    if ltb maxargs minargs
    then some (invalid_bounds minargs maxargs)
    else if (minargs == maxargs) && not (argc == minargs)
    then some (expected_exactly minargs argc)
    else if ltb argc minargs
    then some (expected_at_least minargs argc)
    else if ltb maxargs argc
    then some (expected_at_most maxargs argc)
    else if f args
    then none
    else some failed
