-- ===== src/Http/Serve.antt =====
-- watch_daemon/http_api.go: misc, status and viz, and ToHTTPServer, which spreads the requests over
-- the handlers.
use golang_time_tracker.Base.{ℕ, Bool, ◌&&◌, ◌||◌, not, List, Option, none, some, if◌then◌else◌}
use golang_time_tracker.Base.Int.{ℤ}
use golang_time_tracker.Base.Text.{Text, codes, text_eq}
use golang_time_tracker.Base.Paths.{path_join}
use golang_time_tracker.Client.{TickRequest, WatchRequest}
use golang_time_tracker.Database.{Database}
use golang_time_tracker.Server.State.{Server, Outcome, returned, ◌>>=◌}
use golang_time_tracker.Watcher.{has_suffix}
use golang_time_tracker.Http.{
  Method, is_get, JsonValue, Response, asset_data, uptime_text, fresh, write, http_error,
  http_watch, http_tick, http_get_intervals, http_get_watches, http_clear,
}
use golang_time_tracker.Viz.{Templates, start}

-- What the handlers make of the body when they decode it as JSON, each with its own type.
pub record Body : Type 0 where
  pub as_tick : Option TickRequest
  pub as_watch : Option WatchRequest
  pub as_object : Option (List (Text × JsonValue))

pub record Request : Type 0 where
  pub method : Method
  pub path : Text
  pub query : List (Text × Text)
  pub body : Body

-- The time of a request: the clock's seconds, and the nanoseconds since the start of the daemon.
pub record Clocks : Type 0 where
  pub now : ℤ
  pub uptime : ℤ

unfoldable pub valid_filetype : Text → Bool
valid_filetype path = has_suffix path (codes "js") || has_suffix path (codes "css")

-- The Content-Type is left out.
unfoldable pub http_misc : (Text → Option Text) → Method → Text → Response
http_misc asset method path =
    if is_get method && valid_filetype path
    then elim (asset (path_join (codes "assets") path)) [
      | some bytes ↦ write (asset_data bytes) fresh
      | none ↦ http_error 404 fresh
    ]
    else http_error 404 fresh

unfoldable pub http_status : Method → ℤ → Response
http_status method uptime =
    if not (is_get method) then http_error 405 fresh else write (uptime_text uptime) fresh

module _ (D : Database) (midnight : ℕ → ℤ) (T : Templates) where
  unfoldable pub http_viz : Method → ℤ → Server D → Outcome Response
  http_viz method now s =
      if not (is_get method) then returned (http_error 405 fresh) else start D midnight T now s

  -- The server as a handler that only reads it leaves it.
  abbrev pub unchanged : Server D → Outcome Response → Outcome (Server D × Response)
  unchanged s o = o >>= λ w. returned (s, w)

  -- The ServeMux of ToHTTPServer, for a path that it need not clean: the pattern is the path, or
  -- "/".
  unfoldable pub serve : Request → Clocks → Server D → Outcome (Server D × Response)
  serve r c s =
      if text_eq r.path (codes "/viz")
      then unchanged s (http_viz r.method c.now s)
      else if text_eq r.path (codes "/status")
      then returned (s, http_status r.method c.uptime)
      else if text_eq r.path (codes "/watch")
      then http_watch D r.method r.body.as_watch c.now s
      else if text_eq r.path (codes "/watches")
      then unchanged s (http_get_watches D r.method s)
      else if text_eq r.path (codes "/tick")
      then http_tick D r.method r.body.as_tick c.now s
      else if text_eq r.path (codes "/clear")
      then http_clear D r.method r.body.as_object s
      else if text_eq r.path (codes "/intervals")
      then unchanged s (http_get_intervals D r.method r.query c.now s)
      else returned (s, http_misc T.asset r.method r.path)
