-- ===== src/Server/State.antt =====
-- watch_daemon/api_impl.go and watch_daemon/errors.go: the server, and how its calls may end.
use golang_time_tracker.Base.{ℕ, ◌*◌, Bool}
use golang_time_tracker.Base.Int.{ℤ}
use golang_time_tracker.Base.Halt.{Halt, done, panics, stuck}
use golang_time_tracker.Base.Text.{Text}
use golang_time_tracker.Database.{Database}
use golang_time_tracker.Server.Watches.{Watches}

abbrev s_second : ℕ
s_second = 1

abbrev pub s_minute : ℕ
s_minute = 60 * s_second

abbrev pub s_hour : ℕ
s_hour = 60 * s_minute

abbrev pub s_day : ℕ
s_day = 24 * s_hour

-- maxWatches
abbrev pub max_watches : ℕ
max_watches = 4

-- The errors that the operations return: the driver's, and WatchExistsErr.
pub data Error : Type 0 where
  db_error : Error
  watch_exists : Text → Error

pub data Result {ℓ} (A : Type ℓ) : Type ℓ where
  ok : A → Result A
  err : Error → Result A

module _ (D : Database) where
  open D use {Db, exec, select_watches, select_ticks}

  -- `db_locked` says that dbMu is held by a call that has returned.
  pub record Server : Type 0 where
    pub max_event_gap : ℤ
    pub db : Db
    pub db_locked : Bool
    pub watches : Watches

-- What a call comes to: it returns, it waits for dbMu for ever, or it panics, which takes the
-- daemon down if it is not in a handler, where Go's library recovers from it and closes the
-- connection. `stuck` is the model's own answer where its fuel is used up.
pub data Outcome {ℓ} (A : Type ℓ) : Type ℓ where
  returned : A → Outcome A
  blocked crashed stuck_loop : Outcome A

infixl 5 ◌>>=◌
abbrev pub ◌>>=◌ {ℓ κ} : {A : Type ℓ} {B : Type κ} → Outcome A → (A → Outcome B) → Outcome B
returned a >>= f = f a
blocked >>= f = blocked
crashed >>= f = crashed
stuck_loop >>= f = stuck_loop

abbrev pub of_halt {ℓ} : {A : Type ℓ} → Halt A → Outcome A
of_halt (done a) = returned a
of_halt panics = crashed
of_halt stuck = stuck_loop
