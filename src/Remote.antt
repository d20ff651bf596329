-- ===== src/Remote.antt =====
-- client/client.go: the client of the daemon, that calls its HTTP handlers. The connection is the
-- call of ToHTTPServer's handler; a call whose handler panics gets no answer and stays `crashed`.
pub mod Urls
pub mod Refines
pub mod Commands
use golang_time_tracker.Base.{ℕ, ◌+◌, ◌==◌, List, [], ◌∷◌, ◌++◌, none, some, drop, if◌then◌else◌}
use golang_time_tracker.Base.Int.{ℤ, pos}
use golang_time_tracker.Base.Text.{Text, codes, text_eq}
use golang_time_tracker.Base.Paths.{slash}
use golang_time_tracker.Base.Decimal.{format_int}
use golang_time_tracker.Client.{
  TickRequest, TickResponse, WatchRequest, GetIntervalsResponse, GetWatchesResponse,
}
use golang_time_tracker.Database.{Database}
use golang_time_tracker.Server.State.{Server, Outcome, returned, ◌>>=◌}
use golang_time_tracker.Http.{
  Method, get, post, json_string, Reply, error_message, exists_message, tick_json, intervals_json,
  watches_json, asset_data, uptime_text, Response,
}
use golang_time_tracker.Http.Serve.{Body, Request, Clocks, serve}
use golang_time_tracker.Viz.{Templates}

-- The errors of the client: HTTPError, and a body that is not what it should be.
pub data ClientError : Type 0 where
  status_error : ℕ → List Reply → ClientError
  not_decoded : ClientError

pub data Answer {ℓ} (A : Type ℓ) : Type ℓ where
  answer : A → Answer A
  failure : ClientError → Answer A

-- strings.TrimPrefix(path, "/")
unfoldable pub trim_slash : Text → Text
trim_slash [] = []
trim_slash (c ∷ path) = if c == slash then path else c ∷ path

unfoldable pub url : Text → Text → Text
unfolding trim_slash
url address path = codes "http://" ++ (address ++ slash ∷ trim_slash path)

-- What is in front of the first `c`, and what is behind it.
unfoldable pub cut : ℕ → Text → Text × Text
cut c [] = ([], [])
cut c (d ∷ s) = let r = cut c s in if d == c then ([], s) else (d ∷ r.0, r.1)

unfoldable pub split_on : ℕ → Text → List Text
split_on c [] = [] ∷ []
split_on c (d ∷ s) =
    let rest = split_on c s in
    if d == c then [] ∷ rest else elim rest [ [] ↦ (d ∷ []) ∷ [] | t ∷ ts ↦ (d ∷ t) ∷ ts ]

unfoldable pub parameters : List Text → List (Text × Text)
unfolding cut
parameters [] = []
parameters ([] ∷ ts) = parameters ts
parameters ((c ∷ t) ∷ ts) = cut 61 (c ∷ t) ∷ parameters ts

-- How Go's library reads the URL of a request, for URLs in which nothing is escaped: the path and
-- the parameters of the query.
unfoldable pub read_url : Text → Text × List (Text × Text)
unfolding cut split_on parameters
read_url u =
    let behind_host = (cut slash (drop 7 u)).1 in
    let r = cut 63 behind_host in (slash ∷ r.0, parameters (split_on 38 r.1))

abbrev pub no_body : Body
no_body = record { as_tick = none; as_watch = none; as_object = none }

-- A request for a URL.
unfoldable pub request : Method → Text → Body → Request
request method u body = record {
  method = method;
  path = (read_url u).0;
  query = (read_url u).1;
  body = body;
}

-- httpRespToError; a handler that sets no status answers with 200.
unfoldable pub http_resp_to_error : Response → Answer (List Reply)
http_resp_to_error w = elim w.status [
  | none ↦ answer w.body
  | some code ↦ if code == 200 then answer w.body else failure (status_error code w.body)
]

-- What the client's calls make of the JSON in a body. A field that is missing is left at zero.
unfoldable pub decode_tick : List Reply → Answer TickResponse
decode_tick [] = failure not_decoded
decode_tick (error_message code ∷ rs) = failure not_decoded
decode_tick (exists_message dir ∷ rs) = failure not_decoded
decode_tick (tick_json resp ∷ rs) = answer resp
decode_tick (intervals_json resp ∷ rs) = answer (record { now = pos 0 })
decode_tick (watches_json resp ∷ rs) = answer (record { now = pos 0 })
decode_tick (asset_data d ∷ rs) = failure not_decoded
decode_tick (uptime_text d ∷ rs) = failure not_decoded

unfoldable pub decode_intervals : List Reply → Answer GetIntervalsResponse
decode_intervals [] = failure not_decoded
decode_intervals (error_message code ∷ rs) = failure not_decoded
decode_intervals (exists_message dir ∷ rs) = failure not_decoded
decode_intervals (tick_json resp ∷ rs) = answer (record { intervals = []; end_gap = pos 0 })
decode_intervals (intervals_json resp ∷ rs) = answer resp
decode_intervals (watches_json resp ∷ rs) = answer (record { intervals = []; end_gap = pos 0 })
decode_intervals (asset_data d ∷ rs) = failure not_decoded
decode_intervals (uptime_text d ∷ rs) = failure not_decoded

unfoldable pub decode_watches : List Reply → Answer GetWatchesResponse
decode_watches [] = failure not_decoded
decode_watches (error_message code ∷ rs) = failure not_decoded
decode_watches (exists_message dir ∷ rs) = failure not_decoded
decode_watches (tick_json resp ∷ rs) = answer (record { watches = [] })
decode_watches (intervals_json resp ∷ rs) = answer (record { watches = [] })
decode_watches (watches_json resp ∷ rs) = answer resp
decode_watches (asset_data d ∷ rs) = failure not_decoded
decode_watches (uptime_text d ∷ rs) = failure not_decoded

-- time.ParseDuration, which reads back what String makes of a duration.
unfoldable pub parse_duration : List Reply → Answer ℤ
parse_duration [] = failure not_decoded
parse_duration (error_message code ∷ rs) = failure not_decoded
parse_duration (exists_message dir ∷ rs) = failure not_decoded
parse_duration (tick_json resp ∷ rs) = failure not_decoded
parse_duration (intervals_json resp ∷ rs) = failure not_decoded
parse_duration (watches_json resp ∷ rs) = failure not_decoded
parse_duration (asset_data d ∷ rs) = failure not_decoded
parse_duration (uptime_text d ∷ rs) = answer d

-- The bodies that the client encodes, as the handlers would decode them.
abbrev pub tick_body : TickRequest → Body
tick_body req = record {
  as_tick = some req;
  as_watch = some (record { label = req.label; dir = [] });
  as_object = some ((codes "label", json_string req.label) ∷ []);
}

abbrev pub watch_body : WatchRequest → Body
watch_body req = record {
  as_tick = some (record { label = req.label });
  as_watch = some req;
  as_object =
      some ((codes "label", json_string req.label) ∷ (codes "dir", json_string req.dir) ∷ []);
}

abbrev pub clear_body : Body
clear_body = record {
  as_tick = some (record { label = [] });
  as_watch = some (record { label = []; dir = [] });
  as_object = some ((codes "confirm", json_string (codes "yes")) ∷ []);
}

-- The rest of a call, if there has been no error.
unfoldable pub then_decode {ℓ} :
    {A : Type ℓ} → (List Reply → Answer A) → Answer (List Reply) → Answer A
then_decode decode (answer body) = decode body
then_decode decode (failure e) = failure e

-- fmt.Sprintf("/intervals?start=%d&end=%d", ...)
unfoldable pub intervals_path : ℤ → ℤ → Text
intervals_path start end =
    codes "/intervals?start=" ++ (format_int start ++ (codes "&end=" ++ format_int end))

module _ (D : Database) where
  abbrev pub exchange : Outcome (Server D × Response) → Outcome (Server D × Answer (List Reply))
  exchange o = o >>= λ r. returned (r.0, http_resp_to_error r.1)

  abbrev pub decoded {ℓ} :
      {A : Type ℓ}
      → (List Reply → Answer A)
      → Outcome (Server D × Answer (List Reply))
      → Outcome (Server D × Answer A)
  decoded decode o = o >>= λ r. returned (r.0, then_decode decode r.1)

module _ (D : Database) (midnight : ℕ → ℤ) (T : Templates) (address : Text) where
  -- Get, Post and PostString
  unfoldable pub send :
      Method → Text → Body → Clocks → Server D → Outcome (Server D × Answer (List Reply))
  send method path body c s =
      exchange D (serve D midnight T (request method (url address path) body) c s)

  unfoldable pub client_status : Clocks → Server D → Outcome (Server D × Answer ℤ)
  client_status c s = decoded D parse_duration (send get (codes "/status") no_body c s)

  unfoldable pub client_tick : Text → Clocks → Server D → Outcome (Server D × Answer TickResponse)
  client_tick label c s = decoded D decode_tick (
      if text_eq label []
      then send get (codes "/tick") no_body c s
      else send post (codes "/tick") (tick_body (record { label = label })) c s)

  unfoldable pub client_get_intervals :
      ℤ → ℤ → Clocks → Server D → Outcome (Server D × Answer GetIntervalsResponse)
  client_get_intervals start end c s =
      decoded D decode_intervals (send get (intervals_path start end) no_body c s)

  unfoldable pub client_watch :
      Text → Text → Clocks → Server D → Outcome (Server D × Answer (Unit {0}))
  client_watch dir label c s =
      decoded D (λ body. answer (record {}))
        (send post (codes "/watch") (watch_body (record { dir = dir; label = label })) c s)

  unfoldable pub client_get_watches :
      Clocks → Server D → Outcome (Server D × Answer GetWatchesResponse)
  client_get_watches c s = decoded D decode_watches (send get (codes "/watches") no_body c s)

  unfoldable pub client_clear : Clocks → Server D → Outcome (Server D × Answer (Unit {0}))
  client_clear c s =
      decoded D (λ body. answer (record {})) (send post (codes "/clear") clear_body c s)
