-- ===== src/Commands/Wiring.antt =====
-- cli/main.go: the commands of `t`, as they are handed to the library that runs them.
use golang_time_tracker.Base.{
  ℕ, ◌==◌, ◌≢◌, refl, Bool, if◌then◌else◌, List, [], ◌∷◌, some, map, arith, All,
}
use golang_time_tracker.Base.Text.{Text, codes, text_eq}
use golang_time_tracker.Base.Sorting.{Distinct}
use golang_time_tracker.Cli.{invalid_bounds, bounded_command}

-- What a cobra.Command is told: how it is used, what it does, and the bounds for its arguments.
record Command : Type 0 where
  pub usage : Text
  pub short : Text
  pub min_args : ℕ
  pub max_args : ℕ

abbrev week_cmd : Command
week_cmd = record {
  usage = codes "week";
  short = codes "Show this week's activity";
  min_args = 0;
  max_args = 0;
}

abbrev today_cmd : Command
today_cmd = record {
  usage = codes "today";
  short = codes "Show today's activity";
  min_args = 0;
  max_args = 0;
}

abbrev watch_cmd : Command
watch_cmd = record {
  usage = codes "watch <directory>";
  short = codes "Start watching the given project directory for writes";
  min_args = 1;
  max_args = 1;
}

abbrev tick_cmd : Command
tick_cmd = record {
  usage = codes "tick <label>";
  short =
      codes "Append a tick (work event) with the given label, or print the server's current time";
  min_args = 1;
  max_args = 1;
}

abbrev watched_cmd : Command
watched_cmd = record {
  usage = codes "watched";
  short = codes "Print the directories being watched currently by the watch daemon";
  min_args = 0;
  max_args = 0;
}

abbrev serve_cmd : Command
serve_cmd = record {
  usage = codes "serve";
  short = codes "Start the time-tracker watch daemon";
  min_args = 0;
  max_args = 0;
}

abbrev status_cmd : Command
status_cmd = record {
  usage = codes "status";
  short = codes "Give the status of the time-tracker watch daemon (or start if it it's stopped)";
  min_args = 0;
  max_args = 0;
}

-- In the order of the calls of AddCommand.
abbrev commands : List Command
commands = serve_cmd ∷ status_cmd ∷ tick_cmd ∷ watched_cmd ∷ week_cmd ∷ today_cmd ∷ watch_cmd ∷ []

-- What runs without the name of a command, and the address where the flag gives none.
abbrev default_command : Command
default_command = week_cmd

abbrev default_address : Text
default_address = codes "localhost:9091"

-- The exit code of main, by whether Execute succeeds.
unfoldable exit_code : Bool → ℕ
exit_code succeeds = if succeeds then 0 else 1

-- The library takes the first word of the usage for the name of a command.
unfoldable first_word : Text → Text
first_word [] = []
first_word (c ∷ s) = let rest = first_word s in if c == 32 then [] else c ∷ rest

-- No two commands have one name.
commands-Distinct : Distinct (map (λ c. first_word c.usage) commands)
unfolding first_word text_eq
commands-Distinct = (refl, (refl, (refl, (refl, (refl, (refl, (refl, tt)))))))

-- No command refuses its arguments for its own bounds.
bounded_command-valid :
    (f : List Text → Bool) (args : List Text) (lo hi : ℕ)
    → All (λ c. bounded_command c.min_args c.max_args f args ≢ some (invalid_bounds lo hi)) commands
unfolding bounded_command
bounded_command-valid f args lo hi = (none, (none, (one, (none, (none, (none, (one, tt)))))))
  where
    none : bounded_command 0 0 f args ≢ some (invalid_bounds lo hi)
    none h = ground arith

    one : bounded_command 1 1 f args ≢ some (invalid_bounds lo hi)
    one h = ground arith
