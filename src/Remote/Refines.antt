-- ===== src/Remote/Refines.antt =====
-- The client of client/client.go and the handlers of watch_daemon/http_api.go together: what a call
-- of the client comes to, in terms of the server's operation.
use golang_time_tracker.Base.{ℕ, ◌≡◌, refl, ap, ◌∙◌, false, List, [], ◌∷◌, some}
use golang_time_tracker.Base.Int.{ℤ, pos, negsuc}
use golang_time_tracker.Base.Text.{Text, codes, text_eq}
use golang_time_tracker.Base.Paths.{slash}
use golang_time_tracker.Base.Table.{lookup}
use golang_time_tracker.Base.Decimal.{digits-cons, format_number, format_int}
use golang_time_tracker.Client.{GetIntervalsResponse}
use golang_time_tracker.Database.{Database}
use golang_time_tracker.Server.State.{
  Result, ok, err, Server, Outcome, returned, blocked, crashed, stuck_loop, ◌>>=◌,
}
use golang_time_tracker.Server.Handlers.{get_intervals}
use golang_time_tracker.Server.Logging.{read_response, log_get_intervals}
use golang_time_tracker.Http.{
  Method, get, error_message, fresh, write, write_header, intervals_reply, http_get_intervals,
}
use golang_time_tracker.Http.Request.{boundary}
use golang_time_tracker.Http.Numbers.{IsInt64, parse_int-format_int}
use golang_time_tracker.Http.Serve.{Body, Clocks, serve, unchanged}
use golang_time_tracker.Viz.{Templates}
use golang_time_tracker.Remote.{
  status_error, Answer, answer, failure, url, no_body, request, http_resp_to_error,
  decode_intervals, then_decode, intervals_path, send, exchange, decoded, client_get_intervals,
}
use golang_time_tracker.Remote.Urls.{Lacks, read_url-intervals_path, read_url-plain}

format_int-nonempty : (z : ℤ) → text_eq (format_int z) [] ≡ false
unfolding format_int format_number text_eq
format_int-nonempty (pos n) = let (c, (s, (digit, e))) = digits-cons n n [] in rw e refl
format_int-nonempty (negsuc n) = refl

boundary-format_int :
    (param : Text) (default z : ℤ) (query : List (Text × Text))
    → lookup param query ≡ some (format_int z)
    → IsInt64 z
    → boundary param default query ≡ some z
unfolding boundary
boundary-format_int param default z query e h =
    rw (boundary, e, format_int-nonempty z) (parse_int-format_int z h)

-- What the client makes of what the server's operation returns.
unfoldable pub answered {ℓ} : {A : Type ℓ} → Result A → Answer A
answered (ok a) = answer a
answered (err e) = failure (status_error 500 (error_message 500 ∷ []))

module _ (D : Database) where
  -- What the client's GetIntervals should come to: the answer of the server; after an error, no
  -- answer.
  unfoldable pub told_intervals :
      Server D
      → Outcome (Result GetIntervalsResponse)
      → Outcome (Server D × Answer GetIntervalsResponse)
  told_intervals s (returned (ok resp)) = returned (s, answer resp)
  told_intervals s (returned (err e)) = crashed
  told_intervals s blocked = blocked
  told_intervals s crashed = crashed
  told_intervals s stuck_loop = stuck_loop

  abbrev pub told {ℓ} : {A : Type ℓ} → Outcome (Server D × Result A) → Outcome (Server D × Answer A)
  told o = o >>= λ r. returned (r.0, answered r.1)

module _ (D : Database) (midnight : ℕ → ℤ) (T : Templates) (address : Text) where
  intervals_told :
      (s : Server D) (o : Outcome (Result GetIntervalsResponse))
      → decoded D decode_intervals (
          exchange D (
            unchanged D midnight T s
              ((o >>= read_response) >>= λ r. returned (intervals_reply fresh r))))
        ≡ told_intervals D s o
  unfolding told_intervals read_response intervals_reply http_resp_to_error then_decode
      decode_intervals write write_header
  intervals_told s (returned (ok resp)) = refl
  intervals_told s (returned (err e)) = refl
  intervals_told s blocked = refl
  intervals_told s crashed = refl
  intervals_told s stuck_loop = refl

  query_of : ℤ → ℤ → List (Text × Text)
  query_of start end = (codes "start", format_int start) ∷ (codes "end", format_int end) ∷ []

  start_bound :
      (start end : ℤ)
      → IsInt64 start
      → boundary (codes "start") (pos 0) (query_of start end) ≡ some start
  unfolding query_of lookup text_eq
  start_bound start end h =
      boundary-format_int (codes "start") (pos 0) start (query_of start end) refl h

  end_bound :
      (start end : ℤ)
      → IsInt64 end
      → boundary (codes "end") (pos 2147483647) (query_of start end) ≡ some end
  unfolding query_of lookup text_eq
  end_bound start end h =
      boundary-format_int (codes "end") (pos 2147483647) end (query_of start end) refl h

  get_intervals_request :
      (start end now : ℤ) (s : Server D)
      → IsInt64 start
      → IsInt64 end
      → http_get_intervals D get (query_of start end) now s ≡ (
          (get_intervals D (record { start = start; end = end }) now s >>= read_response) >>= λ r.
          returned (intervals_reply fresh r))
  unfolding http_get_intervals log_get_intervals
  get_intervals_request start end now s h k =
      rw (http_get_intervals, start_bound start end h, end_bound start end k) refl

  serve_intervals :
      (start end : ℤ) (c : Clocks) (s : Server D)
      → Lacks slash address
      → serve D midnight T (request get (url address (intervals_path start end)) no_body) c s
        ≡ unchanged D midnight T s (http_get_intervals D get (query_of start end) c.now s)
  unfolding serve request query_of text_eq
  serve_intervals start end c s plain =
      ap
        (λ r.
          serve D midnight T (record { method = get; path = r.0; query = r.1; body = no_body }) c s)
        (read_url-intervals_path address start end plain)

  -- GetIntervals of the client on any int64 bounds comes to what GetIntervals of the server comes
  -- to: the same answer, or none where the server fails; if the address has no slash.
  pub client_get_intervals_lem :
      (start end : ℤ) (c : Clocks) (s : Server D)
      → Lacks slash address
      → IsInt64 start
      → IsInt64 end
      → client_get_intervals D midnight T address start end c s
        ≡ told_intervals D s (get_intervals D (record { start = start; end = end }) c.now s)
  unfolding client_get_intervals send
  client_get_intervals_lem start end c s plain h k =
      ap (λ o. decoded D decode_intervals (exchange D o))
        (serve_intervals start end c s plain
          ∙ ap (unchanged D midnight T s) (get_intervals_request start end c.now s h k))
      ∙ intervals_told s (get_intervals D (record { start = start; end = end }) c.now s)

  -- A request for a path without a query.
  pub serve_plain :
      (method : Method) (path : Text) (body : Body) (c : Clocks) (s : Server D)
      → Lacks slash address
      → Lacks 63 path
      → serve D midnight T (request method (url address (slash ∷ path)) body) c s
        ≡ serve D midnight T
            (record { method = method; path = slash ∷ path; query = []; body = body })
            c
            s
  unfolding request
  serve_plain method path body c s plain h =
      ap
        (λ r.
          serve D midnight T (record { method = method; path = r.0; query = r.1; body = body }) c s)
        (read_url-plain address path plain h)
