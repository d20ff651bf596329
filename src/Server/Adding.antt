-- ===== src/Server/Adding.antt =====
-- Watch and Tick of watch_daemon/api_impl.go: every way in which they end.
use golang_time_tracker.Base.{
  ◌≡◌, ◌≢◌, refl, sym, ap, ◌∙◌, ◌⊎◌, ◌++◌, true, false, List, [], ◌∷◌, none, some, arith, All,
  Option-cases, inl, inr,
}
use golang_time_tracker.Base.Int.{ℤ}
use golang_time_tracker.Base.Text.{Text, text_eq_iff}
use golang_time_tracker.Base.Sorting.{has_text}
use golang_time_tracker.Base.Table.{lookup}
use golang_time_tracker.Escape.{escape}
use golang_time_tracker.Client.{TickRequest, TickResponse, WatchRequest}
use golang_time_tracker.Database.{Database, insert_watch, insert_tick, delete_excess_watches}
use golang_time_tracker.Database.Rules.{Rules, IsVerbatim, Trims, row_dirs}
use golang_time_tracker.Server.State.{
  Server, Outcome, returned, Result, ok, err, db_error, max_watches, watch_exists, ◌>>=◌,
}
use golang_time_tracker.Server.Watches.{DbWatchInfo}
use golang_time_tracker.Server.Watches.Align.{dirs}
use golang_time_tracker.Server.Handlers.{
  lock_free, get_db_watches, conflict, insert_new_watch, add_watch_to_db, sync_watches, sync_added,
  watch, tick,
}
use golang_time_tracker.Server.Invariant.{Apart}
use golang_time_tracker.Server.Tables.{get_db_watches_lem, inserted-IsTable, escape_verbatim}
use golang_time_tracker.Server.Steps.{Hangs, IsServer, sync_error-Hangs, sync_watches-returns}

conflict-some :
    (dir other : Text) (ws : List DbWatchInfo)
    → conflict dir ws ≡ some other
    → (has_text other (dirs ws) ≡ true) × ¬ Apart dir other
unfolding conflict
conflict-some dir other [] h = cc
conflict-some dir other (w ∷ ws) h = (
  ground (arith, conflict-some dir other ws, text_eq_iff w.dir other),
  λ a. ground (arith, conflict-some dir other ws),
)

module _ (D : Database) (R : Rules D) where
  open R use {watches_of}

  -- The ways in which Watch ends, by the state and the result that it returns.
  pub data WatchEnds (req : WatchRequest) (now : ℤ) (s s' : Server D) (r : Result (Unit {0}))
      : Type 0 where
    added :
        IsServer D R s'
        → All (λ dir. lookup dir s'.watches.watches ≢ none) (row_dirs (watches_of s'.db))
        → ((db : D.Db) × (watches_of db
              ≡ watches_of s.db
                ++ record { last_write = now; dir = req.dir; label = req.label } ∷ [])
            × (((D.exec (delete_excess_watches max_watches) db ≡ none)
                  × (watches_of s'.db ≡ watches_of db))
                ⊎ Trims max_watches (watches_of db) (watches_of s'.db)))
        → r ≡ ok tt
        → WatchEnds req now s s' r
    exists :
        (other : Text)
        → has_text other (row_dirs (watches_of s.db)) ≡ true
        → ¬ Apart req.dir other
        → s' ≡ s
        → r ≡ err (watch_exists other)
        → WatchEnds req now s s' r
    failed : s' ≡ s → r ≡ err db_error → WatchEnds req now s s' r
    failed_locked : Hangs D s' → r ≡ err db_error → WatchEnds req now s s' r

  abbrev pub Ends : WatchRequest → ℤ → Server D → Outcome (Server D × Result (Unit {0})) → Type 0
  Ends req now s o =
      (s' : Server D) × (r : Result (Unit {0})) × (o ≡ returned (s', r)) × WatchEnds req now s s' r

  -- Where the row has been inserted.
  synced-Ends :
      (req : WatchRequest) (now : ℤ) (s s1 : Server D)
      → IsServer D R s1
      → watches_of s1.db
        ≡ watches_of s.db ++ record { last_write = now; dir = req.dir; label = req.label } ∷ []
      → Ends req now s (sync_watches D s1)
  synced-Ends req now s s1 v put = elim (sync_watches-returns D R s1 v) [
    | inl (s', e, sy) ↦ (s', ok tt, e, added sy.server sy.watched (s1.db, put, sy.trimmed) refl)
    | inr e ↦
        let (s', e', hangs) = sync_error-Hangs D s1 v.free e in
        (s', err db_error, e', failed_locked hangs refl)
  ]

  -- Where the database query succeeds and nothing is in the way.
  insert-Ends :
      (req : WatchRequest) (now : ℤ) (s : Server D) (ws : List DbWatchInfo)
      → IsServer D R s
      → IsVerbatim req.dir
      → IsVerbatim req.label
      → get_db_watches D s.db ≡ some ws
      → conflict req.dir ws ≡ none
      → Ends req now s (sync_added D (insert_new_watch D req.dir req.label now s))
  unfolding sync_added insert_new_watch
  insert-Ends req now s ws v hd hl e c =
      elim (Option-cases (D.exec (insert_watch now (escape req.dir) (escape req.label)) s.db)) [
        | inl n ↦ rw (n, insert_new_watch) (s, err db_error, refl, failed refl refl)
        | inr (db, n) ↦
            rw (n, insert_new_watch)
              (synced-Ends req now s (record s { db = db })
                (record {
                  table = inserted-IsTable D R req.dir req.label now s.db db ws v.table hd hl e c n;
                  map_keys = v.map_keys;
                  running = v.running;
                  named = v.named;
                  free = v.free;
                  gap_nonneg = v.gap_nonneg;
                })
                (R.watch_added now req.dir req.label s.db db hd hl
                  (rw (escape_verbatim req.dir hd, escape_verbatim req.label hl) at n)))
      ]

  -- From a server as it should be, Watch on a directory and with a label of plain printable
  -- characters returns: with success, and then its row has been added to the table, which then has
  -- been trimmed to max_watches rows unless the DELETE failed, and every directory of the table is
  -- watched; with the name of a watched directory that is above or below the new one, having
  -- changed nothing; with an error, having changed nothing; or with an error and dbMu held, so that
  -- all later calls hang.
  pub watch-Ends :
      (req : WatchRequest) (now : ℤ) (s : Server D)
      → IsServer D R s
      → IsVerbatim req.dir
      → IsVerbatim req.label
      → Ends req now s (watch D req now s)
  unfolding watch add_watch_to_db sync_added
  watch-Ends req now s v hd hl = elim (Option-cases (get_db_watches D s.db)) [
    | inl e ↦ (s, err db_error, ap sync_all (lock_free D s _ v.free) ∙ (rw e), failed refl refl)
    | inr (ws, e) ↦ elim (Option-cases (conflict req.dir ws)) [
      | inl c ↦
          let (s', r, eq, w) = insert-Ends req now s ws v hd hl e c in
          (s', r, ap sync_all (lock_free D s _ v.free) ∙ (rw (e, c) eq), w)
      | inr (other, c) ↦
          let (known, near) = conflict-some req.dir other ws c in
          (
            s,
            err (watch_exists other),
            ap sync_all (lock_free D s _ v.free) ∙ (rw (e, c)),
            exists other (sym ((get_db_watches_lem D R s.db ws v.table e).0 other) ∙ known) near
                refl refl,
          )
    ]
  ]
    where
      sync_all : Outcome (Server D × Result (Unit {0})) → Outcome (Server D × Result (Unit {0}))
      sync_all o = o >>= sync_added D

  -- With dbMu free, after a successful tick another one in the same second is refused, and changes
  -- nothing; both labels are of plain printable characters.
  pub tick_once :
      (req again : TickRequest) (now : ℤ) (s s' : Server D) (resp : TickResponse)
      → IsVerbatim req.label
      → IsVerbatim again.label
      → s.db_locked ≡ false
      → tick D (some req) now s ≡ returned (s', ok resp)
      → tick D (some again) now s' ≡ returned (s', err db_error)
  unfolding tick
  tick_once req again now s s' resp h h' free e =
      elim (Option-cases (D.exec (insert_tick now (escape req.label)) s.db)) [
        | inl n ↦
            let p : ◌≡◌ {A = Outcome (Server D × Result TickResponse)} (returned (s, err db_error))
                (returned (s', ok resp)) =
              rw n at (sym (lock_free D s _ free) ∙ e) in
            cc
        | inr (db, n) ↦
            let p : ◌≡◌ {A = Outcome (Server D × Result TickResponse)}
                (returned (record s { db = db }, ok (record { now = now })))
                (returned (s', ok resp)) =
              rw n at (sym (lock_free D s _ free) ∙ e) in
            let after : record s { db = db } ≡ s' = cc in
            rw (← after) (lock_free D (record s { db = db }) _ free ∙ (rw (refused db n)))
      ]
    where
      refused :
          (db : D.Db)
          → D.exec (insert_tick now (escape req.label)) s.db ≡ some db
          → D.exec (insert_tick now (escape again.label)) db ≡ none
      refused db n = elim (Option-cases (D.exec (insert_tick now (escape again.label)) db)) [
        | inl none_left ↦ none_left
        | inr (db', twice) ↦ absurd (
            ground (
              arith,
              R.tick_new now again.label db db' h' (rw (escape_verbatim again.label h') at twice),
              R.tick_stored now req.label s.db db h (rw (escape_verbatim req.label h) at n) now,
            ))
      ]
