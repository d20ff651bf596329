-- ===== src/Http.antt =====
-- watch_daemon/http_api.go: the handlers of the HTTP server. A request comes with its body already
-- read as JSON, and what is written stands for its JSON, whose making cannot fail for these types.
pub mod Request
pub mod Numbers
pub mod Safety
pub mod Serve
use golang_time_tracker.Base.{
  ℕ, Bool, true, false, not, List, [], ◌∷◌, ◌++◌, Option, none, some, if◌then◌else◌,
}
use golang_time_tracker.Base.Int.{ℤ, pos}
use golang_time_tracker.Base.Text.{Text, codes, text_eq}
use golang_time_tracker.Base.Table.{lookup}
use golang_time_tracker.Client.{
  TickRequest, TickResponse, WatchRequest, GetIntervalsResponse, GetWatchesResponse,
}
use golang_time_tracker.Database.{Database}
use golang_time_tracker.Server.State.{
  db_error, watch_exists, Result, ok, err, Server, Outcome, returned, ◌>>=◌,
}
use golang_time_tracker.Server.Logging.{
  log_tick, log_watch, log_get_watches, log_get_intervals, log_clear,
}
use golang_time_tracker.Base.Paths.{clean, is_abs, base}
use golang_time_tracker.Http.Request.{boundary}

pub data Method : Type 0 where
  get post other_method : Method

abbrev pub is_get : Method → Bool
is_get get = true
is_get post = false
is_get other_method = false

abbrev is_post : Method → Bool
is_post get = false
is_post post = true
is_post other_method = false

-- A value in the map that /clear reads from its body.
pub data JsonValue : Type 0 where
  json_string : Text → JsonValue
  json_other : JsonValue

-- A piece of what is written to the response.
pub data Reply : Type 0 where
  error_message : ℕ → Reply
  exists_message : Text → Reply
  tick_json : TickResponse → Reply
  intervals_json : GetIntervalsResponse → Reply
  watches_json : GetWatchesResponse → Reply
  asset_data : Text → Reply
  uptime_text : ℤ → Reply

-- A response: the status is set once, by the first call that does so.
pub record Response : Type 0 where
  pub status : Option ℕ
  pub body : List Reply

abbrev pub fresh : Response
fresh = record { status = none; body = [] }

unfoldable pub write_header : ℕ → Response → Response
write_header code w = elim w.status [ none ↦ record w { status = some code } | some _ ↦ w ]

-- w.Write, which sends the status 200 if there is none yet.
unfoldable pub write : Reply → Response → Response
unfolding write_header
write reply w = let sent = write_header 200 w in record sent { body = sent.body ++ reply ∷ [] }

unfoldable pub http_error : ℕ → Response → Response
unfolding write write_header
http_error code w = write (error_message code) (write_header code w)

-- What is read of the request before the call of /watch: the request with its directory cleaned and
-- its label filled in.
unfoldable pub prepare_watch : WatchRequest → WatchRequest
prepare_watch req =
    let dir = clean req.dir in
    record { dir = dir; label = if text_eq req.label [] then base dir else req.label }

unfoldable pub watch_reply : Response → Result (Unit {0}) → Response
unfolding http_error write write_header
watch_reply w (ok _) = write_header 200 w
watch_reply w (err (watch_exists dir)) = write (exists_message dir) w
watch_reply w (err db_error) = http_error 500 w

unfoldable pub tick_reply : Response → Result TickResponse → Response
unfolding http_error write write_header
tick_reply w (ok resp) = write (tick_json resp) w
tick_reply w (err _) = http_error 500 w

unfoldable pub intervals_reply : Response → Result GetIntervalsResponse → Response
unfolding http_error write write_header
intervals_reply w (ok resp) = write (intervals_json resp) w
intervals_reply w (err _) = http_error 500 w

unfoldable pub watches_reply : Response → Result GetWatchesResponse → Response
unfolding http_error write write_header
watches_reply w (ok resp) = write (watches_json resp) w
watches_reply w (err _) = http_error 500 w

unfoldable pub clear_reply : Response → Result (Unit {0}) → Response
unfolding http_error write write_header
clear_reply w (ok _) = write_header 200 w
clear_reply w (err _) = http_error 500 w

-- req["confirm"] != "yes", negated
unfoldable pub is_confirmed : List (Text × JsonValue) → Bool
is_confirmed body = elim (lookup (codes "confirm") body) [
  | some (json_string s) ↦ text_eq s (codes "yes")
  | some json_other ↦ false
  | none ↦ false
]

module _ (D : Database) where
  -- A directory that is not absolute is answered with an error, after which the handler goes on.
  unfoldable pub http_watch :
      Method → Option WatchRequest → ℤ → Server D → Outcome (Server D × Response)
  http_watch method body now s =
      if not (is_post method) then returned (s, http_error 405 fresh) else elim body [
        | none ↦ returned (s, http_error 400 fresh)
        | some req ↦
            let w = if not (is_abs (clean req.dir)) then http_error 400 fresh else fresh in
            log_watch D (prepare_watch req) now s >>= λ r. returned (r.0, watch_reply w r.1)
      ]

  -- So is an empty label.
  unfoldable pub http_tick :
      Method → Option TickRequest → ℤ → Server D → Outcome (Server D × Response)
  http_tick other_method body now s = returned (s, http_error 405 fresh)
  http_tick get body now s = log_tick D none now s >>= λ r. returned (r.0, tick_reply fresh r.1)
  http_tick post none now s = returned (s, http_error 400 fresh)
  http_tick post (some req) now s =
      let w = if text_eq req.label [] then http_error 400 fresh else fresh in
      log_tick D (some req) now s >>= λ r. returned (r.0, tick_reply w r.1)

  unfoldable pub http_get_intervals : Method → List (Text × Text) → ℤ → Server D → Outcome Response
  http_get_intervals method query now s =
      if not (is_get method)
      then returned (http_error 405 fresh)
      else elim (boundary (codes "start") (pos 0) query) [
        | none ↦ returned (http_error 400 fresh)
        | some start ↦ elim (boundary (codes "end") (pos 2147483647) query) [
          | none ↦ returned (http_error 400 fresh)
          | some end ↦ log_get_intervals D (record { start = start; end = end }) now s >>= λ r.
              returned (intervals_reply fresh r)
        ]
      ]

  unfoldable pub http_get_watches : Method → Server D → Outcome Response
  http_get_watches method s =
      if not (is_get method)
      then returned (http_error 405 fresh)
      else (log_get_watches D s >>= λ r. returned (watches_reply fresh r))

  unfoldable pub http_clear :
      Method → Option (List (Text × JsonValue)) → Server D → Outcome (Server D × Response)
  http_clear method body s =
      if not (is_post method) then returned (s, http_error 405 fresh) else elim body [
        | none ↦ returned (s, http_error 400 fresh)
        | some req ↦
            if not (is_confirmed req)
            then returned (s, http_error 400 fresh)
            else (log_clear D s >>= λ r. returned (r.0, clear_reply fresh r.1))
      ]
