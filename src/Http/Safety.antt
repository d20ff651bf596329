-- ===== src/Http/Safety.antt =====
-- What the handlers of watch_daemon/http_api.go let through to the server.
use golang_time_tracker.Base.{
  ◌≡◌, ◌≢◌, ◌↔◌, refl, ap, ◌∙◌, true, false, List, [], Option, none, some, arith, Bool-cases,
  Option-cases, inl, inr,
}
use golang_time_tracker.Base.Int.{ℤ}
use golang_time_tracker.Base.Text.{Text, codes, text_eq, text_eq_iff}
use golang_time_tracker.Base.Table.{lookup}
use golang_time_tracker.Client.{TickResponse, WatchRequest}
use golang_time_tracker.Database.{Database, recreate_tables}
use golang_time_tracker.Server.State.{
  db_error, watch_exists, Result, ok, err, Server, returned, ◌>>=◌,
}
use golang_time_tracker.Server.Handlers.{tick, watch, clear, lock_free}
use golang_time_tracker.Base.Paths.{clean, is_abs}
use golang_time_tracker.Http.{
  Method, get, post, other_method, JsonValue, json_string, json_other, Response, fresh,
  write_header, write, http_error, prepare_watch, watch_reply, tick_reply, clear_reply,
  is_confirmed, http_watch, http_tick, http_clear,
}

-- How /clear ends: it refuses, leaving the server as it was, or it runs the
-- commands of Clear.
pub data ClearEnds (D : Database) (method : Method) (body : Option (List (Text × JsonValue)))
    (s s' : Server D) (w : Response) : Type 0 where
  wrong_method : method ≢ post → s' ≡ s → w.status ≡ some 405 → ClearEnds D method body s s' w
  unreadable : body ≡ none → s' ≡ s → w.status ≡ some 400 → ClearEnds D method body s s' w
  unconfirmed :
      (req : List (Text × JsonValue))
      → body ≡ some req
      → lookup (codes "confirm") req ≢ some (json_string (codes "yes"))
      → s' ≡ s
      → w.status ≡ some 400
      → ClearEnds D method body s s' w
  failed :
      (req : List (Text × JsonValue))
      → method ≡ post
      → body ≡ some req
      → lookup (codes "confirm") req ≡ some (json_string (codes "yes"))
      → D.exec recreate_tables s.db ≡ none
      → s' ≡ record s { db = D.partly_recreated s.db }
      → w.status ≡ some 500
      → ClearEnds D method body s s' w
  cleared :
      (req : List (Text × JsonValue)) (db : D.Db)
      → method ≡ post
      → body ≡ some req
      → lookup (codes "confirm") req ≡ some (json_string (codes "yes"))
      → D.exec recreate_tables s.db ≡ some db
      → s' ≡ record s { db = db }
      → w.status ≡ some 200
      → ClearEnds D method body s s' w

is_confirmed_iff :
    (req : List (Text × JsonValue))
    → (is_confirmed req ≡ true) ↔ (lookup (codes "confirm") req ≡ some (json_string (codes "yes")))
unfolding is_confirmed
is_confirmed_iff req = elim (Option-cases (lookup (codes "confirm") req)) [
  | inl e ↦ (λ h. ground (arith, e), λ h. ground (arith, e))
  | inr (json_other, e) ↦ (λ h. ground (arith, e), λ h. ground (arith, e))
  | inr (json_string t, e) ↦ (
    λ h. ground (arith, e, text_eq_iff t (codes "yes")),
    λ h. ground (arith, e, text_eq_iff t (codes "yes")),
  )
]

-- A POST that is not refused comes to what Clear does.
confirmed_ends :
    (D : Database) (req : List (Text × JsonValue)) (s : Server D)
    → s.db_locked ≡ false
    → (s' : Server D) × (w : Response) × (http_clear D post (some req) s ≡ returned (s', w))
      × ClearEnds D post (some req) s s' w
unfolding http_clear clear clear_reply write_header http_error write
confirmed_ends D req s free = elim (Bool-cases (is_confirmed req)) [
  | inr e ↦ (
    s,
    http_error 400 fresh,
    rw e,
    unconfirmed req refl (λ h. ground (arith, e, is_confirmed_iff req)) refl refl,
  )
  | inl e ↦ elim (Option-cases (D.exec recreate_tables s.db)) [
    | inl f ↦
        let run : clear D s ≡ returned (record s { db = D.partly_recreated s.db }, err db_error) =
          lock_free D s _ free ∙ (rw f) in
        (
          record s { db = D.partly_recreated s.db },
          http_error 500 fresh,
          rw e (ap (λ o. o >>= λ r. returned (r.0, clear_reply fresh r.1)) run),
          failed req refl refl ((is_confirmed_iff req).0 e) f refl refl,
        )
    | inr (db, f) ↦
        let run : clear D s ≡ returned (record s { db = db }, ok tt) =
          lock_free D s _ free ∙ (rw f) in
        (
          record s { db = db },
          write_header 200 fresh,
          rw e (ap (λ o. o >>= λ r. returned (r.0, clear_reply fresh r.1)) run),
          cleared req db refl refl ((is_confirmed_iff req).0 e) f refl refl,
        )
  ]
]

-- With dbMu free every call of /clear returns: it refuses with a status of its own for each reason,
-- leaving the server as it was, unless it is a POST whose body confirms with "yes"; then the status
-- says whether the tables were made anew.
pub clear_ends :
    (D : Database) (method : Method) (body : Option (List (Text × JsonValue))) (s : Server D)
    → s.db_locked ≡ false
    → (s' : Server D) × (w : Response) × (http_clear D method body s ≡ returned (s', w))
      × ClearEnds D method body s s' w
unfolding http_clear write_header http_error write
clear_ends D get body s free = (s, http_error 405 fresh, refl, wrong_method (λ e. cc) refl refl)
clear_ends D other_method body s free =
    (s, http_error 405 fresh, refl, wrong_method (λ e. cc) refl refl)
clear_ends D post none s free = (s, http_error 400 fresh, refl, unreadable refl refl refl)
clear_ends D post (some req) s free = confirmed_ends D req s free

-- A POST of a watch on a relative directory is answered with the status 400, but the watch is set
-- up like any other: the server is left as Watch leaves it.
pub relative_dir_watched :
    (D : Database) (req : WatchRequest) (now : ℤ) (s s' : Server D) (r : Result (Unit {0}))
    → is_abs (clean req.dir) ≡ false
    → watch D (prepare_watch req) now s ≡ returned (s', r)
    → (w : Response) × (http_watch D post (some req) now s ≡ returned (s', w))
      × (w.status ≡ some 400)
unfolding http_watch watch_reply write_header http_error write
relative_dir_watched D req now s s' r relative e =
    (watch_reply (http_error 400 fresh) r, rw (relative, e), kept r)
  where
    kept : (r : Result (Unit {0})) → (watch_reply (http_error 400 fresh) r).status ≡ some 400
    kept (ok _) = refl
    kept (err db_error) = refl
    kept (err (watch_exists d)) = refl

-- A POST of a tick with an empty label is answered with the status 400, and the server is left as
-- Tick leaves it.
empty_label_ticks :
    (D : Database) (now : ℤ) (s s' : Server D) (r : Result TickResponse)
    → tick D (some (record { label = [] })) now s ≡ returned (s', r)
    → (w : Response) × (http_tick D post (some (record { label = [] })) now s ≡ returned (s', w))
      × (w.status ≡ some 400)
unfolding http_tick text_eq tick_reply write_header http_error write
empty_label_ticks D now s s' r e = (tick_reply (http_error 400 fresh) r, rw e, kept r)
  where
    kept : (r : Result TickResponse) → (tick_reply (http_error 400 fresh) r).status ≡ some 400
    kept (ok _) = refl
    kept (err _) = refl
