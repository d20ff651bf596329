-- ===== src/Cli/Arguments.antt =====
-- Which argument lists the commands of cli/main.go accept, by BoundedCommand of cli/cmdutil.go.
use golang_time_tracker.Base.{ℕ, ◌≤◌, ◌≡◌, ◌↔◌, Bool, true, List, none, arith, length}
use golang_time_tracker.Base.Text.{Text}
use golang_time_tracker.Cli.{bounded_command}

-- A command exits normally exactly if the number of its arguments is within the bounds and the
-- command itself succeeds on them.
bounded_command_iff :
    (minargs maxargs : ℕ) (f : List Text → Bool) (args : List Text)
    → (bounded_command minargs maxargs f args ≡ none)
      ↔ ((minargs ≤ length args) × (length args ≤ maxargs) × (f args ≡ true))
unfolding bounded_command
bounded_command_iff minargs maxargs f args = (λ h. ground arith, λ h. ground arith)
