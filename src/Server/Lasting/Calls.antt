-- ===== src/Server/Lasting/Calls.antt =====
-- watch_daemon/api_impl.go: each call of the API returns, and what it leaves.
use golang_time_tracker.Base.{
  ℕ, ◌<◌, ◌≡◌, ◌≢◌, ap, ◌∙◌, ◌⊎◌, true, List, [], Option, none, some, arith, All, Option-cases,
  Bool-cases, inl, inr, get_elem?,
}
use golang_time_tracker.Base.Int.{ℤ, IsTime, add64, sub64}
use golang_time_tracker.Client.{TickRequest, WatchRequest}
use golang_time_tracker.Escape.{escape}
use golang_time_tracker.Database.{Database, insert_tick, recreate_tables, TickRow}
use golang_time_tracker.Database.Rules.{Rules, IsVerbatim}
use golang_time_tracker.Server.State.{Server, Outcome, returned, db_error, Result, ok, err}
use golang_time_tracker.Server.Handlers.{lock_free, tick, watch, clear}
use golang_time_tracker.Server.Recording.{sync_round}
use golang_time_tracker.Server.Invariant.{IsTable, IsTable-nil}
use golang_time_tracker.Server.Tables.{IsNamed, escape_verbatim}
use golang_time_tracker.Server.Steps.{IsServer, Hangs, sync_error-Hangs, sync_watches-returns}
use golang_time_tracker.Server.Adding.{watch-Ends, WatchEnds, added, exists, failed, failed_locked}
use golang_time_tracker.Server.Calls.{
  left, Call, call_tick, call_watch, call_get_watches, call_get_intervals, call_clear, round_sync,
  round_record, file_event,
}

module _ (D : Database) (R : Rules D) where
  open R use {watches_of}

  -- A label of plain printable characters, where there is one.
  abbrev pub IsLabelled : Option TickRequest → Type 0
  IsLabelled none = Unit
  IsLabelled (some req) = IsVerbatim req.label

  -- What a call relies on: labels and directories of plain printable characters, times that int64
  -- arithmetic does not overflow, a goroutine that has not seen three errors, a transaction that
  -- can begin.
  abbrev pub IsFair : Server D → Call → Type 0
  IsFair s (call_tick req now) = IsLabelled req
  IsFair s (call_watch req now) = IsNamed req.dir req.label
  IsFair s call_get_watches = Unit
  IsFair s (call_get_intervals req now) =
      IsTime now
      × ((rows : List TickRow)
          → D.select_ticks (sub64 req.start s.max_event_gap) (add64 req.end s.max_event_gap) s.db
            ≡ some rows
          → All (λ row. IsTime row.time) rows)
  IsFair s call_clear = Unit
  IsFair s (round_sync err_count) = err_count < 2
  IsFair s (round_record ch i now) = (ch.begins ≡ true) × (get_elem? s.watches.heap i ≢ none)
  IsFair s (file_event i) = Unit

  -- The call returns, with the server as it should be or with dbMu held.
  abbrev pub Lasts : Outcome (Server D) → Type 0
  Lasts o = (t : Server D) × (o ≡ returned t) × (IsServer D R t ⊎ (t.db_locked ≡ true))

  pub with_table :
      (s : Server D) (db : D.Db)
      → IsTable (watches_of db)
      → IsServer D R s
      → IsServer D R (record s { db = db })
  with_table s db table v = record {
    table = table;
    map_keys = v.map_keys;
    running = v.running;
    named = v.named;
    free = v.free;
    gap_nonneg = v.gap_nonneg;
  }

  pub tick-Lasts :
      (req : Option TickRequest) (now : ℤ) (s : Server D)
      → IsServer D R s
      → IsLabelled req
      → Lasts (left (tick D req now s))
  unfolding tick
  tick-Lasts none now s v n = (s, ap left (lock_free D s _ v.free), inl v)
  tick-Lasts (some req) now s v n =
      elim (Option-cases (D.exec (insert_tick now (escape req.label)) s.db)) [
        | inl e ↦
            let p : tick D (some req) now s ≡ returned (s, err db_error) =
              lock_free D s _ v.free ∙ (rw e) in
            (s, ap left p, inl v)
        | inr (db, e) ↦
            let p : tick D (some req) now s
                ≡ returned (record s { db = db }, ok (record { now = now })) =
              lock_free D s _ v.free ∙ (rw e) in
            (
              record s { db = db },
              ap left p,
              inl (
                  with_table s db
                    (rw
                      (R.tick_watches now req.label s.db db n
                        (rw (escape_verbatim req.label n) at e))
                      v.table)
                    v),
            )
      ]

  Hangs-locked : (s : Server D) → Hangs D s → s.db_locked ≡ true
  unfolding clear
  Hangs-locked s h = elim (Bool-cases s.db_locked) [
    | inl e ↦ e
    | inr e ↦ elim (Option-cases (D.exec recreate_tables s.db)) [
      | inl f ↦
          let p : clear D s ≡ returned (record s { db = D.partly_recreated s.db }, err db_error) =
            lock_free D s _ e ∙ (rw f) in
          absurd (ground (arith, h.clears))
      | inr (db, f) ↦
          let p : clear D s ≡ returned (record s { db = db }, ok tt) = lock_free D s _ e ∙ (rw f) in
          absurd (ground (arith, h.clears))
    ]
  ]

  pub watch-Lasts :
      (req : WatchRequest) (now : ℤ) (s : Server D)
      → IsServer D R s
      → IsNamed req.dir req.label
      → Lasts (left (watch D req now s))
  watch-Lasts req now s v (dir, label) =
      let (t, r, e, w) = watch-Ends D R req now s v dir label in (t, ap left e, ended t r w)
    where
      ended :
          (t : Server D) (r : Result (Unit {0}))
          → WatchEnds D R req now s t r
          → IsServer D R t ⊎ (t.db_locked ≡ true)
      ended t r (added v' _ _ _) = inl v'
      ended t r (exists _ _ _ same _) = inl (rw same v)
      ended t r (failed same _) = inl (rw same v)
      ended t r (failed_locked h _) = inr (Hangs-locked t h)

  pub clear-Lasts : (s : Server D) → IsServer D R s → Lasts (left (clear D s))
  unfolding clear
  clear-Lasts s v = elim (Option-cases (D.exec recreate_tables s.db)) [
    | inl f ↦
        let p : clear D s ≡ returned (record s { db = D.partly_recreated s.db }, err db_error) =
          lock_free D s _ v.free ∙ (rw f) in
        (
          _,
          ap left p,
          inl (with_table s (D.partly_recreated s.db) (partly s.db v.table (R.partly s.db)) v),
        )
    | inr (db, f) ↦
        let p : clear D s ≡ returned (record s { db = db }, ok tt) =
          lock_free D s _ v.free ∙ (rw f) in
        (_, ap left p, inl (with_table s db (rw (R.recreated s.db db f) IsTable-nil) v))
  ]
    where
      partly :
          (db : D.Db)
          → IsTable (watches_of db)
          → (watches_of (D.partly_recreated db) ≡ watches_of db)
            ⊎ (watches_of (D.partly_recreated db) ≡ [])
          → IsTable (watches_of (D.partly_recreated db))
      partly db h (inl e) = rw e h
      partly db h (inr e) = rw e IsTable-nil

  pub sync_round-Lasts :
      (err_count : ℕ) (s : Server D)
      → IsServer D R s
      → err_count < 2
      → Lasts (left (sync_round D err_count s))
  unfolding sync_round
  sync_round-Lasts err_count s v few = elim (sync_watches-returns D R s v) [
    | inl (t, e, sy) ↦ (t, rw e (ground arith), inl sy.server)
    | inr e ↦
        let (t, e', hangs) = sync_error-Hangs D s v.free e in
        (t, rw e' (ground arith), inr (Hangs-locked t hangs))
  ]
