-- ===== src/Commands.antt =====
-- cli/main.go: the commands of `t`, as functions of what the daemon answers. What a command prints
-- is a list of lines on the terminal.
pub mod Screens
pub mod Watching
pub mod Serving
pub mod Wiring
use golang_time_tracker.Base.{
  ℕ, zero, suc, ◌+◌, ◌-◌, ◌%◌, ◌==◌, ltb, Bool, true, false, List, [], ◌∷◌, ◌++◌, map, Option, none,
  some, length, take, if◌then◌else◌,
}
use golang_time_tracker.Base.Int.{ℤ}
use golang_time_tracker.Base.Halt.{done, panics, stuck}
use golang_time_tracker.Base.Text.{Text}
use golang_time_tracker.Base.Paths.{clean, is_abs, path_join}
use golang_time_tracker.Client.{GetIntervalsResponse, WatchInfo}
use golang_time_tracker.Database.{Database}
use golang_time_tracker.Server.State.{Server, Outcome, returned, ◌>>=◌}
use golang_time_tracker.Http.Serve.{Clocks}
use golang_time_tracker.Viz.{Templates}
use golang_time_tracker.Remote.{
  Answer, answer, failure, client_status, client_watch, client_get_watches,
}
use golang_time_tracker.Cli.{Row, day_row}

-- How getCLIClient ends.
pub data Connection : Type 0 where
  connected no_log not_started could_not_connect : Connection

-- What os.OpenFile of the two logs and cmd.Start answer.
pub record Starting : Type 0 where
  pub opens_log : Bool
  pub opens_err : Bool
  pub starts : Bool

unfoldable pub start_daemon : Starting → Option Connection
start_daemon st =
    if not_opened st.opens_log st.opens_err
    then some no_log
    else if st.starts
    then none
    else some not_started
  where
    not_opened : Bool → Bool → Bool
    not_opened true true = false
    not_opened true false = true
    not_opened false e = true

-- The loop of getCLIClient: `status` says whether Status succeeds in the round, and `left` rounds
-- are left.
unfoldable pub connect : ℕ → ℕ → (ℕ → Bool) → Starting → Connection
connect zero retry status st = could_not_connect
connect (suc left) retry status st =
    let again = connect left (retry + 1) status st in
    if status retry
    then connected
    else if ltb 0 retry
    then could_not_connect
    else elim (start_daemon st) [ some end ↦ end | none ↦ again ]

unfoldable get_cli_client : (ℕ → Bool) → Starting → Connection
get_cli_client = connect 2 0

-- A line on the terminal.
pub data Line : Type 0 where
  border : Line
  row_line : Row → Line
  watch_line : Text → Text → Line
  uptime_line : ℤ → Line

-- How a piece of the week or today command ends: all is drawn, dayRow returns an error, or it
-- panics.
pub data Drawn : Type 0 where
  drawn not_retrieved : List Line → Drawn
  draw_panicked : Drawn

abbrev pub then_draw : Drawn → (List Line → Drawn) → Drawn
then_draw (drawn screen) f = f screen
then_draw (not_retrieved screen) f = not_retrieved screen
then_draw draw_panicked f = draw_panicked

-- "\x1b[nF\x1b[J": the cursor goes up n lines, and what is below it is cleared.
unfoldable pub go_up : ℕ → List Line → List Line
go_up n screen = take (length screen - n) screen

-- fmt.Println
abbrev print_line : Line → List Line → List Line
print_line line screen = screen ++ line ∷ []

-- dayRow and the Println of what it returns.
unfoldable pub print_row : Bool → Answer GetIntervalsResponse → List Line → Drawn
print_row include_end_gap (failure e) screen = not_retrieved screen
print_row include_end_gap (answer resp) screen = elim (day_row include_end_gap resp) [
  | done row ↦ drawn (print_line (row_line row) screen)
  | panics ↦ draw_panicked
  | stuck ↦ draw_panicked
]

-- A round of the loop over the days of a week; the last day has a border above and below.
unfoldable pub print_day : Bool → ℕ → Answer GetIntervalsResponse → List Line → Drawn
print_day include_end_gap day resp screen =
    if day + 1 == 7
    then then_draw (print_row include_end_gap resp (print_line border screen))
        (λ s. drawn (print_line border s))
    else print_row include_end_gap resp screen

-- The loop from `day` on, `count` days long.
unfoldable pub print_days : ℕ → ℕ → Bool → (ℕ → Answer GetIntervalsResponse) → List Line → Drawn
print_days zero day include_end_gap ask screen = drawn screen
print_days (suc count) day include_end_gap ask screen =
    then_draw (print_day include_end_gap day (ask day) screen)
      (print_days count (day + 1) include_end_gap ask)

-- A round of the outer loop of weekCmd; `ask` has the daemon's answers for its days.
unfoldable pub week_frame : ℕ → (ℕ → Answer GetIntervalsResponse) → List Line → Drawn
week_frame tick ask screen =
    print_days 7 0 (tick == 1) ask (if ltb 0 tick then go_up 9 screen else screen)

-- A round of the loop of todayCmd.
unfoldable pub today_frame : ℕ → Answer GetIntervalsResponse → List Line → Drawn
today_frame tick resp screen =
    print_row (tick == 1) resp (if ltb 0 tick then go_up 1 screen else screen)

unfoldable pub next_tick : ℕ → ℕ
next_tick tick = 2 - (tick + 1) % 2

-- Rounds of one of these loops, one for each of the answers.
unfoldable pub draw_frames {ℓ} :
    {A : Type ℓ} → (ℕ → A → List Line → Drawn) → ℕ → List A → List Line → Drawn
draw_frames frame tick [] screen = drawn screen
draw_frames frame tick (a ∷ rounds) screen =
    then_draw (frame tick a screen) (draw_frames frame (next_tick tick) rounds)

-- The directory that watchCmd sends; a relative one is joined to the working directory, if there is
-- one.
unfoldable pub watch_dir : Option Text → Text → Option Text
watch_dir working_dir arg =
    if is_abs (clean arg)
    then some (clean arg)
    else elim working_dir [ some wd ↦ some (path_join wd (clean arg)) | none ↦ none ]

-- The loop of getWatchedCmd.
unfoldable watched_lines : List WatchInfo → List Line
watched_lines = map (λ wi. watch_line wi.dir wi.label)

module _ (D : Database) (midnight : ℕ → ℤ) (T : Templates) (address : Text) where
  -- watchCmd from Clean on; `none` stands for an error of os.Getwd.
  unfoldable pub watch_command :
      Option Text
      → Text
      → Text
      → Clocks
      → Server D
      → Outcome (Server D × Option (Answer (Unit {0})))
  watch_command working_dir label arg c s = elim (watch_dir working_dir arg) [
    | none ↦ returned (s, none)
    | some dir ↦ client_watch D midnight T address dir label c s >>= λ r. returned (r.0, some r.1)
  ]

  -- getWatchedCmd from GetWatches on
  unfoldable watched_command : Clocks → Server D → Outcome (Server D × Answer (List Line))
  watched_command c s = client_get_watches D midnight T address c s >>= λ r. elim r.1 [
    | answer resp ↦ returned (r.0, answer (watched_lines resp.watches))
    | failure e ↦ returned (r.0, failure e)
  ]

  -- statusCmd from Status on
  unfoldable status_command : Clocks → Server D → Outcome (Server D × Answer Line)
  status_command c s = client_status D midnight T address c s >>= λ r. elim r.1 [
    | answer uptime ↦ returned (r.0, answer (uptime_line uptime))
    | failure e ↦ returned (r.0, failure e)
  ]
