-- ===== src/Server/Keeping/Calls.antt =====
-- watch_daemon/api_impl.go: what each call leaves of the table `ticks`.
use golang_time_tracker.Base.{
  ◌≡◌, refl, sym, ◌∙◌, Bool, none, some, Option-cases, Bool-cases, inl, inr,
}
use golang_time_tracker.Base.Int.{ℤ}
use golang_time_tracker.Base.Text.{Text}
use golang_time_tracker.Base.Halt.{Halt, done, panics, stuck}
use golang_time_tracker.Client.{TickRequest, TickResponse, WatchRequest}
use golang_time_tracker.Escape.{escape}
use golang_time_tracker.Database.{
  Database, insert_tick, insert_watch, delete_excess_watches, insert_or_ignore_tick,
  update_last_write,
}
use golang_time_tracker.Database.Rules.{Rules, IsVerbatim}
use golang_time_tracker.Server.State.{
  Server, Outcome, returned, blocked, crashed, stuck_loop, max_watches, Result, ok, err, ◌>>=◌,
  of_halt,
}
use golang_time_tracker.Server.Watches.{Watch, Watches, align_watches}
use golang_time_tracker.Server.Handlers.{
  lock_db, lock_free, get_db_watches, delete_excess, sync_watches, sync_added, insert_new_watch,
  add_watch_to_db, watch, tick, conflict,
}
use golang_time_tracker.Server.Recording.Batching.{written, written_atomic}
use golang_time_tracker.Server.Tables.{IsNamed, escape_verbatim}

module _ (D : Database) (R : Rules D) where
  open R use {tick_at}

  abbrev pub Kept : D.Db → D.Db → Type 0
  Kept db db' = (u : ℤ) (l : Text) → tick_at db u ≡ some l → tick_at db' u ≡ some l

  abbrev pub KeptBy : {A : Type 0} → D.Db → Outcome (Server D × A) → Type 0
  KeptBy {A = A} db o = (t : Server D) (r : A) → o ≡ returned (t, r) → Kept db t.db

  delete_excess-Kept : (db : D.Db) → Kept db (delete_excess D db)
  unfolding delete_excess
  delete_excess-Kept db u l h =
      elim (Option-cases (D.exec (delete_excess_watches max_watches) db)) [
        | inl e ↦ rw (e, delete_excess) h
        | inr (db', e) ↦
            rw (e, delete_excess)
              (R.ticks_kept (delete_excess_watches max_watches) db db' u l tt e h)
      ]

  -- dbMu is free, or the call does not return.
  unlocked :
      (A : Type 0) (s : Server D) (f : Server D → Outcome (Server D × A))
      → KeptBy s.db (f s)
      → KeptBy s.db (lock_db D s >>= f)
  unfolding lock_db
  unlocked A s f h t r e = elim (Bool-cases s.db_locked) [
    | inl l ↦
        (let p : ◌≡◌ {A = Outcome (Server D × A)} blocked (returned (t, r)) =
            rw (lock_db, l) at e in
          cc)
    | inr l ↦ h t r (sym (lock_free D s f l) ∙ e)
  ]

  pub returned-KeptBy :
      {A : Type 0} (db : D.Db) (s : Server D) (r : A) → Kept db s.db → KeptBy db (returned (s, r))
  returned-KeptBy db s r h t r' e = let same : s ≡ t = cc in rw (← same) h

  pub sync_watches-Kept : (s : Server D) → KeptBy s.db (sync_watches D s)
  unfolding sync_watches
  sync_watches-Kept s =
      unlocked (Result (Unit {0})) s _
        (elim (Option-cases (get_db_watches D (delete_excess D s.db))) [
          | inl e ↦ rw e (returned-KeptBy s.db _ _ (delete_excess-Kept s.db))
          | inr (ws, e) ↦ rw e (aligned (align_watches ws s.watches))
        ])
    where
      aligned :
          (h : Halt Watches)
          → KeptBy s.db (
              of_halt h >>= λ ws.
              returned (record s { db = delete_excess D s.db; watches = ws }, ok tt))
      aligned (done ws) = returned-KeptBy s.db _ _ (delete_excess-Kept s.db)
      aligned panics = λ t r e. cc
      aligned stuck = λ t r e. cc

  added-Kept :
      (dir label : Text) (now : ℤ) (s : Server D)
      → IsNamed dir label
      → KeptBy s.db (returned (insert_new_watch D dir label now s))
  unfolding insert_new_watch
  added-Kept dir label now s n =
      elim (Option-cases (D.exec (insert_watch now (escape dir) (escape label)) s.db)) [
        | inl e ↦ rw (e, insert_new_watch) (returned-KeptBy s.db _ _ (λ u l h. h))
        | inr (db, e) ↦
            rw (e, insert_new_watch)
              (returned-KeptBy s.db _ _ λ u l h.
                R.ticks_kept (insert_watch now (escape dir) (escape label)) s.db db u l
                  (rw (escape_verbatim dir n.0, escape_verbatim label n.1) n) e h)
      ]

  add_watch_to_db-Kept :
      (dir label : Text) (now : ℤ) (s : Server D)
      → IsNamed dir label
      → KeptBy s.db (add_watch_to_db D dir label now s)
  unfolding add_watch_to_db
  add_watch_to_db-Kept dir label now s n =
      unlocked (Result (Unit {0})) s _ (elim (Option-cases (get_db_watches D s.db)) [
        | inl e ↦ rw e (returned-KeptBy s.db _ _ (λ u l h. h))
        | inr (ws, e) ↦ elim (Option-cases (conflict dir ws)) [
          | inl c ↦ rw (e, c) (added-Kept dir label now s n)
          | inr (other, c) ↦ rw (e, c) (returned-KeptBy s.db _ _ (λ u l h. h))
        ]
      ])

  pub watch-Kept :
      (req : WatchRequest) (now : ℤ) (s : Server D)
      → IsNamed req.dir req.label
      → KeptBy s.db (watch D req now s)
  unfolding watch
  watch-Kept req now s n t r e =
      synced (add_watch_to_db D req.dir req.label now s)
        (add_watch_to_db-Kept req.dir req.label now s n) e
    where
      synced :
          (o : Outcome (Server D × Result (Unit {0})))
          → KeptBy s.db o
          → (o >>= sync_added D) ≡ returned (t, r)
          → Kept s.db t.db
      synced (returned (s1, ok _)) k f =
          λ u l h. sync_watches-Kept s1 t r (unfold sync_added in f) u l (k s1 (ok tt) refl u l h)
      synced (returned (s1, err x)) k f = k t r (unfold sync_added in f)
      synced blocked k f = cc
      synced crashed k f = cc
      synced stuck_loop k f = cc

  pub tick-none-Kept : (now : ℤ) (s : Server D) → KeptBy s.db (tick D none now s)
  unfolding tick
  tick-none-Kept now s = unlocked (Result TickResponse) s _ (returned-KeptBy s.db _ _ (λ u l h. h))

  pub tick-Kept :
      (req : TickRequest) (now : ℤ) (s : Server D)
      → IsVerbatim req.label
      → KeptBy s.db (tick D (some req) now s)
  unfolding tick
  tick-Kept req now s n =
      unlocked (Result TickResponse) s _
        (elim (Option-cases (D.exec (insert_tick now (escape req.label)) s.db)) [
          | inl e ↦ rw e (returned-KeptBy s.db _ _ (λ u l h. h))
          | inr (db, e) ↦ rw e (
              returned-KeptBy s.db _ _ λ u l h.
                R.ticks_kept (insert_tick now (escape req.label)) s.db db u l
                  (rw (escape_verbatim req.label n) n) e h)
        ])

  pub written-Kept :
      (commits : Bool) (w : Watch) (now : ℤ) (db : D.Db)
      → IsNamed w.dir w.label
      → Kept db (written D commits w now db)
  written-Kept commits w now db n u l h = elim (written_atomic D commits w now db) [
    | inl same ↦ rw same h
    | inr (mid, inserts, updates) ↦
        R.ticks_kept (update_last_write now (escape w.dir)) mid (written D commits w now db) u l
          (rw (escape_verbatim w.dir n.0) n.0) updates
          (R.ticks_kept (insert_or_ignore_tick now (escape w.label)) db mid u l
            (rw (escape_verbatim w.label n.1) n.1) inserts h)
  ]
