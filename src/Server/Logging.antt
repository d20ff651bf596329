-- ===== src/Server/Logging.antt =====
-- watch_daemon/logging_api.go: LoggingAPI, with which the handlers call the server. What it logs is
-- left out, but not what it takes to log it.
use golang_time_tracker.Base.{Option}
use golang_time_tracker.Base.Int.{ℤ}
use golang_time_tracker.Client.{
  TickRequest, TickResponse, WatchRequest, GetIntervalsRequest, GetIntervalsResponse,
  GetWatchesResponse,
}
use golang_time_tracker.Database.{Database}
use golang_time_tracker.Server.State.{Result, ok, err, Server, Outcome, returned, crashed, ◌>>=◌}
use golang_time_tracker.Server.Handlers.{tick, watch, get_watches, get_intervals, clear}

-- The deferred functions of GetIntervals and GetWatches read a field of the response, which is nil
-- after an error.
unfoldable pub read_response {ℓ} : {A : Type ℓ} → Result A → Outcome (Result A)
read_response (ok resp) = returned (ok resp)
read_response (err e) = crashed

module _ (D : Database) where
  abbrev pub log_watch : WatchRequest → ℤ → Server D → Outcome (Server D × Result (Unit {0}))
  log_watch req now s = watch D req now s

  abbrev pub log_tick : Option TickRequest → ℤ → Server D → Outcome (Server D × Result TickResponse)
  log_tick req now s = tick D req now s

  unfoldable pub log_get_intervals :
      GetIntervalsRequest → ℤ → Server D → Outcome (Result GetIntervalsResponse)
  log_get_intervals req now s = get_intervals D req now s >>= read_response

  unfoldable pub log_get_watches : Server D → Outcome (Result GetWatchesResponse)
  log_get_watches s = get_watches D s >>= read_response

  abbrev pub log_clear : Server D → Outcome (Server D × Result (Unit {0}))
  log_clear s = clear D s
