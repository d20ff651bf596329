-- ===== src/Server/Steps.antt =====
-- The calls of watch_daemon/api_impl.go one by one: that they return, what they leave, and when the
-- daemon hangs.
use golang_time_tracker.Base.{
  ◌≤◌, ◌≡◌, ◌≢◌, refl, ◌∙◌, ◌⊎◌, true, false, List, Option, none, some, All, length, Option-cases,
  inl, inr,
}
use golang_time_tracker.Base.Int.{ℤ, pos, ◌≤ℤ◌}
use golang_time_tracker.Base.Halt.{done}
use golang_time_tracker.Base.Sorting.{sort_texts, Distinct, All_of_has_text, All-has_text}
use golang_time_tracker.Base.Table.{keys, lookup}
use golang_time_tracker.Client.{TickRequest, WatchRequest, GetIntervalsRequest}
use golang_time_tracker.Database.{Database, delete_excess_watches}
use golang_time_tracker.Database.Rules.{Rules, Trims, row_dirs}
use golang_time_tracker.Server.State.{Server, returned, blocked, ok, err, db_error, max_watches}
use golang_time_tracker.Server.Watches.{DbWatchInfo, align_watches, Watches}
use golang_time_tracker.Server.Watches.Align.{dirs}
use golang_time_tracker.Server.Watches.Converge.{align_watches-Synced}
use golang_time_tracker.Server.Handlers.{
  lock_db, lock_free, get_db_watches, delete_excess, add_watch_to_db, sync_watches, watch, tick,
  get_intervals, clear,
}
use golang_time_tracker.Server.Invariant.{IsTable}
use golang_time_tracker.Server.Running.{AreRunning, AllNamed, Align-AreRunning, Align-AllNamed}
use golang_time_tracker.Server.Tables.{
  IsNamed, get_db_watches-IsNamed, get_db_watches_lem, delete_excess-IsTable, delete_excess-Trims,
}

-- Once dbMu is held by a call that has returned, every call that needs the database waits for ever.
pub record Hangs (D : Database) (s : Server D) : Type 0 where
  pub ticks : (req : Option TickRequest) (now : ℤ) → tick D req now s ≡ blocked
  pub watches : (req : WatchRequest) (now : ℤ) → watch D req now s ≡ blocked
  pub intervals : (req : GetIntervalsRequest) (now : ℤ) → get_intervals D req now s ≡ blocked
  pub clears : clear D s ≡ blocked
  pub syncs : sync_watches D s ≡ blocked

pub locked-Hangs : (D : Database) (s : Server D) → s.db_locked ≡ true → Hangs D s
unfolding lock_db tick watch add_watch_to_db get_intervals clear sync_watches
locked-Hangs D s h = record {
  ticks = hangs_tick;
  watches = λ req now. rw h;
  intervals = λ req now. rw h;
  clears = rw h;
  syncs = rw h;
}
  where
    hangs_tick : (req : Option TickRequest) (now : ℤ) → tick D req now s ≡ blocked
    hangs_tick none now = rw h
    hangs_tick (some req) now = rw h

-- If dbMu is free and the query of the watches fails during syncWatches, the call returns the error
-- with dbMu still held: from then on every call that uses the database hangs.
pub sync_error-Hangs :
    (D : Database) (s : Server D)
    → s.db_locked ≡ false
    → get_db_watches D (delete_excess D s.db) ≡ none
    → (s' : Server D) × (sync_watches D s ≡ returned (s', err db_error)) × Hangs D s'
unfolding sync_watches
sync_error-Hangs D s free e = (
  record s { db = delete_excess D s.db; db_locked = true },
  lock_free D s _ free ∙ (rw e),
  locked-Hangs D _ refl,
)

sync_done :
    (D : Database) (s : Server D) (ws : List DbWatchInfo) (t : Watches)
    → s.db_locked ≡ false
    → get_db_watches D (delete_excess D s.db) ≡ some ws
    → align_watches ws s.watches ≡ done t
    → sync_watches D s ≡ returned (record s { db = delete_excess D s.db; watches = t }, ok tt)
unfolding sync_watches
sync_done D s ws t free e eq = lock_free D s _ free ∙ (rw (e, eq))

module _ (D : Database) (R : Rules D) where
  open R use {watches_of}

  -- What holds of the server between its calls.
  pub record IsServer (s : Server D) : Type 0 where
    pub table : IsTable (watches_of s.db)
    pub map_keys : Distinct (keys s.watches.watches)
    pub running : AreRunning s.watches
    pub named : AllNamed IsNamed s.watches.heap
    pub free : s.db_locked ≡ false
    pub gap_nonneg : pos 0 ≤ℤ s.max_event_gap

  -- A successful syncWatches leaves every directory of the table watched, and has trimmed the
  -- table, or the DELETE has failed.
  pub record IsSynced (s s' : Server D) : Type 0 where
    pub server : IsServer s'
    pub watched : All (λ dir. lookup dir s'.watches.watches ≢ none) (row_dirs (watches_of s'.db))
    pub bounded :
        D.exec (delete_excess_watches max_watches) s.db ≢ none
        → length (watches_of s'.db) ≤ max_watches
    pub trimmed :
        ((D.exec (delete_excess_watches max_watches) s.db ≡ none)
          × (watches_of s'.db ≡ watches_of s.db))
        ⊎ Trims max_watches (watches_of s.db) (watches_of s'.db)

  -- From a server as it should be, syncWatches returns successfully, with the server as it should
  -- be again, every directory of the table watched, and the table trimmed to the maxWatches most
  -- recently written ones, or as it was if the DELETE failed; or the query of the watches has
  -- failed.
  pub sync_watches-returns :
      (s : Server D)
      → IsServer s
      → ((s' : Server D) × (sync_watches D s ≡ returned (s', ok tt)) × IsSynced s s')
        ⊎ (get_db_watches D (delete_excess D s.db) ≡ none)
  sync_watches-returns s v = elim (Option-cases (get_db_watches D (delete_excess D s.db))) [
    | inl e ↦ inr e
    | inr (ws, e) ↦
        let (table, bounded) = delete_excess-IsTable D R s.db v.table in
        let (same, sorted) = get_db_watches_lem D R (delete_excess D s.db) ws table e in
        let (t, eq, sy) = align_watches-Synced ws s.watches sorted v.map_keys in
        inl (
          record s { db = delete_excess D s.db; watches = t },
          sync_done D s ws t v.free e eq,
          record {
            server = record {
              table = table;
              map_keys = sy.distinct;
              running =
                  Align-AreRunning (sort_texts (keys s.watches.watches)) ws s.watches t sy.aligned
                    v.running;
              named =
                  Align-AllNamed IsNamed (sort_texts (keys s.watches.watches)) ws s.watches t
                    sy.aligned (get_db_watches-IsNamed D R (delete_excess D s.db) ws table e)
                    v.named;
              free = v.free;
              gap_nonneg = v.gap_nonneg;
            };
            watched = All_of_has_text _ (row_dirs (watches_of (delete_excess D s.db))) λ k p.
                All-has_text (λ dir. lookup dir t.watches ≢ none) k (dirs ws) sy.covers
                  (same k ∙ p);
            bounded = bounded;
            trimmed = delete_excess-Trims D R s.db;
          },
        )
  ]
