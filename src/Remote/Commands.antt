-- ===== src/Remote/Commands.antt =====
-- Tick, Watch, GetWatches and Clear of client/client.go together with the handlers of
-- watch_daemon/http_api.go.
use golang_time_tracker.Base.{
  ℕ, ◌≡◌, refl, ap, ◌∙◌, true, [], ◌∷◌, none, some, if◌then◌else◌, Bool-cases, inl, inr,
}
use golang_time_tracker.Base.Int.{ℤ}
use golang_time_tracker.Base.Text.{Text, codes, text_eq}
use golang_time_tracker.Base.Paths.{slash, clean, base, is_abs}
use golang_time_tracker.Base.Table.{lookup}
use golang_time_tracker.Client.{TickRequest, TickResponse, WatchRequest, GetWatchesResponse}
use golang_time_tracker.Database.{Database}
use golang_time_tracker.Server.State.{
  db_error, watch_exists, Result, ok, err, Server, Outcome, returned, blocked, crashed, stuck_loop,
  ◌>>=◌,
}
use golang_time_tracker.Server.Handlers.{tick, watch, get_watches, clear}
use golang_time_tracker.Server.Logging.{read_response, log_get_watches}
use golang_time_tracker.Http.{
  get, post, error_message, fresh, write, write_header, http_error, prepare_watch, watch_reply,
  tick_reply, watches_reply, clear_reply, http_watch, http_tick, http_get_watches, http_clear,
  is_confirmed,
}
use golang_time_tracker.Http.Serve.{Clocks, serve, unchanged}
use golang_time_tracker.Viz.{Templates}
use golang_time_tracker.Remote.{
  status_error, Answer, answer, failure, url, no_body, request, http_resp_to_error, decode_tick,
  decode_watches, tick_body, watch_body, clear_body, then_decode, send, exchange, decoded,
  client_tick, client_watch, client_get_watches, client_clear,
}
use golang_time_tracker.Remote.Urls.{Lacks}
use golang_time_tracker.Remote.Refines.{serve_plain, answered, told}

-- The client cannot tell a directory that is watched already from a new one.
unfoldable pub watch_answered : Result (Unit {0}) → Answer (Unit {0})
watch_answered (ok r) = answer (record {})
watch_answered (err (watch_exists dir)) = answer (record {})
watch_answered (err db_error) = failure (status_error 500 (error_message 500 ∷ []))

module _ (D : Database) where
  -- GetWatches never fails in the server.
  unfoldable told_watches :
      Server D
      → Outcome (Result GetWatchesResponse)
      → Outcome (Server D × Answer GetWatchesResponse)
  told_watches s (returned (ok resp)) = returned (s, answer resp)
  told_watches s (returned (err e)) = crashed
  told_watches s blocked = blocked
  told_watches s crashed = crashed
  told_watches s stuck_loop = stuck_loop

module _ (D : Database) (midnight : ℕ → ℤ) (T : Templates) (address : Text) where
  tick_told :
      (o : Outcome (Server D × Result TickResponse))
      → decoded D decode_tick (exchange D (o >>= λ r. returned (r.0, tick_reply fresh r.1)))
        ≡ told D o
  unfolding answered tick_reply http_resp_to_error then_decode decode_tick write write_header
      http_error
  tick_told (returned (s, ok resp)) = refl
  tick_told (returned (s, err e)) = refl
  tick_told blocked = refl
  tick_told crashed = refl
  tick_told stuck_loop = refl

  get_tick :
      (c : Clocks) (s : Server D)
      → Lacks slash address
      → serve D midnight T (request get (url address (codes "/tick")) no_body) c s
        ≡ http_tick D get none c.now s
  unfolding serve text_eq
  get_tick c s plain =
      serve_plain D midnight T address get (codes "tick") no_body c s plain
        (refl, (refl, (refl, (refl, record {}))))

  post_tick :
      (req : TickRequest) (c : Clocks) (s : Server D)
      → Lacks slash address
      → serve D midnight T (request post (url address (codes "/tick")) (tick_body req)) c s
        ≡ http_tick D post (some req) c.now s
  unfolding serve text_eq
  post_tick req c s plain =
      serve_plain D midnight T address post (codes "tick") (tick_body req) c s plain
        (refl, (refl, (refl, (refl, record {}))))

  -- Tick of the client comes to what Tick of the server comes to, with no request for an empty
  -- label: the same answer, or the status 500 where the server fails; if the address has no slash.
  pub client_tick_lem :
      (label : Text) (c : Clocks) (s : Server D)
      → Lacks slash address
      → client_tick D midnight T address label c s
        ≡ told D
            (tick D (if text_eq label [] then none else some (record { label = label })) c.now s)
  unfolding client_tick send http_tick
  client_tick_lem label c s plain = elim (Bool-cases (text_eq label [])) [
    | inl e ↦
        rw (client_tick, e)
          (ap (λ o. decoded D decode_tick (exchange D o)) (get_tick c s plain)
            ∙ tick_told (tick D none c.now s))
    | inr e ↦
        rw (client_tick, e)
          (ap (λ o. decoded D decode_tick (exchange D o))
              (post_tick (record { label = label }) c s plain ∙ rw (http_tick, e) refl)
            ∙ tick_told (tick D (some (record { label = label })) c.now s))
  ]

  watch_told :
      (o : Outcome (Server D × Result (Unit {0})))
      → decoded D
          (λ body. answer (record {}))
          (exchange D (o >>= λ r. returned (r.0, watch_reply fresh r.1)))
        ≡ (o >>= λ r. returned (r.0, watch_answered r.1))
  unfolding watch_answered watch_reply http_resp_to_error then_decode write write_header http_error
  watch_told (returned (s, ok r)) = refl
  watch_told (returned (s, err (watch_exists dir))) = refl
  watch_told (returned (s, err db_error)) = refl
  watch_told blocked = refl
  watch_told crashed = refl
  watch_told stuck_loop = refl

  post_watch :
      (req : WatchRequest) (c : Clocks) (s : Server D)
      → Lacks slash address
      → serve D midnight T (request post (url address (codes "/watch")) (watch_body req)) c s
        ≡ http_watch D post (some req) c.now s
  unfolding serve text_eq
  post_watch req c s plain =
      serve_plain D midnight T address post (codes "watch") (watch_body req) c s plain
        (refl, (refl, (refl, (refl, (refl, record {})))))

  -- Watch of the client comes to what Watch of the server comes to, with the directory cleaned and
  -- the last element of the cleaned directory for an empty label: it succeeds where the server does
  -- or names a conflicting watch, and is the status 500 where the server fails; if the cleaned
  -- directory is absolute and the address has no slash.
  pub client_watch_lem :
      (dir label : Text) (c : Clocks) (s : Server D)
      → Lacks slash address
      → is_abs (clean dir) ≡ true
      → client_watch D midnight T address dir label c s ≡ (
          watch D
            (record {
              dir = clean dir;
              label = if text_eq label [] then base (clean dir) else label;
            })
            c.now
            s
          >>= λ r. returned (r.0, watch_answered r.1))
  unfolding client_watch send http_watch prepare_watch
  client_watch_lem dir label c s plain rooted =
      let req : WatchRequest = record { dir = dir; label = label } in
      ap (λ o. decoded D (λ body. answer (record {})) (exchange D o))
        (post_watch req c s plain ∙ rw (http_watch, rooted) refl)
      ∙ watch_told (watch D (prepare_watch req) c.now s)

  clear_told :
      (o : Outcome (Server D × Result (Unit {0})))
      → decoded D
          (λ body. answer (record {}))
          (exchange D (o >>= λ r. returned (r.0, clear_reply fresh r.1)))
        ≡ told D o
  unfolding answered clear_reply http_resp_to_error then_decode write write_header http_error
  clear_told (returned (s, ok r)) = refl
  clear_told (returned (s, err e)) = refl
  clear_told blocked = refl
  clear_told crashed = refl
  clear_told stuck_loop = refl

  post_clear :
      (c : Clocks) (s : Server D)
      → Lacks slash address
      → serve D midnight T (request post (url address (codes "/clear")) clear_body) c s
        ≡ (clear D s >>= λ r. returned (r.0, clear_reply fresh r.1))
  unfolding serve text_eq http_clear is_confirmed lookup
  post_clear c s plain =
      serve_plain D midnight T address post (codes "clear") clear_body c s plain
        (refl, (refl, (refl, (refl, (refl, record {})))))

  -- Clear of the client is confirmed: it comes to what Clear of the server comes to, with the
  -- status 500 where the server fails; if the address has no slash.
  client_clear_lem :
      (c : Clocks) (s : Server D)
      → Lacks slash address
      → client_clear D midnight T address c s ≡ told D (clear D s)
  unfolding client_clear send
  client_clear_lem c s plain =
      ap (λ o. decoded D (λ body. answer (record {})) (exchange D o)) (post_clear c s plain)
      ∙ clear_told (clear D s)

  watches_told :
      (s : Server D) (o : Outcome (Result GetWatchesResponse))
      → decoded D decode_watches (
          exchange D (
            unchanged D midnight T s
              ((o >>= read_response) >>= λ r. returned (watches_reply fresh r))))
        ≡ told_watches D s o
  unfolding told_watches read_response watches_reply http_resp_to_error then_decode decode_watches
      write write_header
  watches_told s (returned (ok resp)) = refl
  watches_told s (returned (err e)) = refl
  watches_told s blocked = refl
  watches_told s crashed = refl
  watches_told s stuck_loop = refl

  get_watches-request :
      (c : Clocks) (s : Server D)
      → Lacks slash address
      → serve D midnight T (request get (url address (codes "/watches")) no_body) c s
        ≡ unchanged D midnight T s
            ((get_watches D s >>= read_response) >>= λ r. returned (watches_reply fresh r))
  unfolding serve text_eq http_get_watches log_get_watches
  get_watches-request c s plain =
      serve_plain D midnight T address get (codes "watches") no_body c s plain
        (refl, (refl, (refl, (refl, (refl, (refl, (refl, record {})))))))

  -- GetWatches of the client comes to what GetWatches of the server comes to, the same answer; if
  -- the address has no slash.
  client_get_watches_lem :
      (c : Clocks) (s : Server D)
      → Lacks slash address
      → client_get_watches D midnight T address c s ≡ told_watches D s (get_watches D s)
  unfolding client_get_watches send
  client_get_watches_lem c s plain =
      ap (λ o. decoded D decode_watches (exchange D o)) (get_watches-request c s plain)
      ∙ watches_told s (get_watches D s)
