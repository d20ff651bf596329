-- ===== src/Server/Handlers.antt =====
-- watch_daemon/api_impl.go: the operations of the server. Each takes the state and returns it as it
-- leaves it; dbMu and watchMu make the operations follow one another.
use golang_time_tracker.Base.{
  ℕ, ◌*◌, ◌≡◌, true, false, List, [], ◌∷◌, Option, none, some, if◌then◌else◌, get_elem?,
}
use golang_time_tracker.Base.Int.{ℤ, pos, add64, sub64}
use golang_time_tracker.Base.Halt.{Halt, done, panics, stuck}
use golang_time_tracker.Base.Text.{Text, has_prefix}
use golang_time_tracker.Escape.{escape, unescape}
use golang_time_tracker.Client.{
  TickRequest, TickResponse, WatchRequest, WatchInfo, GetIntervalsRequest, GetIntervalsResponse,
  GetWatchesResponse,
}
use golang_time_tracker.Database.{
  Database, WatchRow, create_tables, insert_tick, insert_watch, delete_excess_watches,
  recreate_tables,
}
use golang_time_tracker.Server.State.{
  s_minute, max_watches, db_error, watch_exists, Result, ok, err, Server, Outcome, returned,
  blocked, ◌>>=◌, of_halt,
}
use golang_time_tracker.Server.Watches.{Watch, DbWatchInfo, align_watches}
use golang_time_tracker.Server.Intervals.{intervals_of}

-- The loop of addWatchToDB over the watches of the database: the first that is above or below
-- `dir`.
unfoldable pub conflict : Text → List DbWatchInfo → Option Text
conflict dir [] = none
conflict dir (wi ∷ ws) =
    if has_prefix dir wi.dir
    then some wi.dir
    else if has_prefix wi.dir dir
    then some wi.dir
    else conflict dir ws

-- The loop of getDBWatches over its rows.
unfoldable pub parse_watches : List WatchRow → List DbWatchInfo
parse_watches [] = []
parse_watches (row ∷ rows) =
    record { dir = unescape row.dir; label = unescape row.label; last_write = row.last_write }
    ∷ parse_watches rows

-- The loop of GetWatches.
unfoldable pub watch_infos : List (Text × ℕ) → List Watch → Halt (List WatchInfo)
watch_infos [] heap = done []
watch_infos ((dir, i) ∷ m) heap = elim (get_elem? heap i) [
  | none ↦ panics
  | some w ↦ elim (watch_infos m heap) [
    | done infos ↦ done (record { last_write = pos 0; dir = dir; label = w.label } ∷ infos)
    | panics ↦ panics
    | stuck ↦ stuck
  ]
]

module _ (D : Database) where
  open D use {Db, exec, select_watches, select_ticks}

  -- NewServer, once the database is open.
  unfoldable pub new_server : Db → Result (Server D)
  new_server db = elim (exec create_tables db) [
    | none ↦ err db_error
    | some db' ↦ ok (record {
      max_event_gap = pos (23 * s_minute);
      db = db';
      db_locked = false;
      watches = record { heap = []; watches = [] };
    })
  ]

  -- s.dbMu.Lock()
  unfoldable pub lock_db : Server D → Outcome (Server D)
  lock_db s = if s.db_locked then blocked else returned s

  -- With dbMu free the call goes on.
  pub lock_free {ℓ} :
      {A : Type ℓ} (s : Server D) (f : Server D → Outcome A)
      → s.db_locked ≡ false
      → (lock_db s >>= f) ≡ f s
  unfolding lock_db
  lock_free s f free = rw free

  unfoldable pub tick : Option TickRequest → ℤ → Server D → Outcome (Server D × Result TickResponse)
  tick none now s = do s ← lock_db s; returned (s, ok (record { now = now }))
  tick (some req) now s = do
    s ← lock_db s
    elim (exec (insert_tick now (escape req.label)) s.db) [
      | none ↦ returned (s, err db_error)
      | some db ↦ returned (record s { db = db }, ok (record { now = now }))
    ]

  unfoldable pub get_db_watches : Db → Option (List DbWatchInfo)
  get_db_watches db = elim (select_watches db) [
    | none ↦ none
    | some rows ↦ some (parse_watches rows)
  ]

  unfoldable pub insert_new_watch : Text → Text → ℤ → Server D → Server D × Result (Unit {0})
  insert_new_watch dir label now s =
      elim (exec (insert_watch now (escape dir) (escape label)) s.db) [
        | none ↦ (s, err db_error)
        | some db ↦ (record s { db = db }, ok tt)
      ]

  unfoldable pub add_watch_to_db :
      Text → Text → ℤ → Server D → Outcome (Server D × Result (Unit {0}))
  add_watch_to_db dir label now s = do
    s ← lock_db s
    elim (get_db_watches s.db) [
      | none ↦ returned (s, err db_error)
      | some ws ↦ elim (conflict dir ws) [
        | some other ↦ returned (s, err (watch_exists other))
        | none ↦ returned (insert_new_watch dir label now s)
      ]
    ]

  -- (1) of syncWatches, whose error is overwritten by the next call's.
  unfoldable pub delete_excess : Db → Db
  delete_excess db = elim (exec (delete_excess_watches max_watches) db) [
    | none ↦ db
    | some db' ↦ db'
  ]

  -- The return on an error of getDBWatches is not preceded by s.dbMu.Unlock().
  unfoldable pub sync_watches : Server D → Outcome (Server D × Result (Unit {0}))
  sync_watches s = do
    s ← lock_db s
    let db = delete_excess s.db
    elim (get_db_watches db) [
      | none ↦ returned (record s { db = db; db_locked = true }, err db_error)
      | some ws ↦ do
        watches ← of_halt (align_watches ws s.watches)
        returned (record s { db = db; watches = watches }, ok tt)
    ]

  -- The second half of Watch, behind addWatchToDB.
  unfoldable pub sync_added : Server D × Result (Unit {0}) → Outcome (Server D × Result (Unit {0}))
  sync_added (s, err e) = returned (s, err e)
  sync_added (s, ok _) = sync_watches s

  unfoldable pub watch : WatchRequest → ℤ → Server D → Outcome (Server D × Result (Unit {0}))
  watch req now s = add_watch_to_db req.dir req.label now s >>= sync_added

  unfoldable pub get_watches : Server D → Outcome (Result GetWatchesResponse)
  get_watches s = do
    infos ← of_halt (watch_infos s.watches.watches s.watches.heap)
    returned (ok (record { watches = infos }))

  unfoldable pub get_intervals :
      GetIntervalsRequest → ℤ → Server D → Outcome (Result GetIntervalsResponse)
  get_intervals req now s = do
    s ← lock_db s
    elim (select_ticks (sub64 req.start s.max_event_gap) (add64 req.end s.max_event_gap) s.db) [
      | none ↦ returned (err db_error)
      | some rows ↦ do
        resp ← of_halt (intervals_of req s.max_event_gap now rows)
        returned (ok resp)
    ]

  unfoldable pub clear : Server D → Outcome (Server D × Result (Unit {0}))
  clear s = do
    s ← lock_db s
    elim (exec recreate_tables s.db) [
      | none ↦ returned (record s { db = D.partly_recreated s.db }, err db_error)
      | some db ↦ returned (record s { db = db }, ok tt)
    ]
