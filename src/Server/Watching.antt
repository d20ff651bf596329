-- ===== src/Server/Watching.antt =====
-- The goroutines that syncWatches (watch_daemon/api_impl.go) starts for a watch, together: the
-- watcher (pkg/watcher/watcher.go), whose callback is handleEvent, and recordWritesInDB.
use golang_time_tracker.Base.{
  ℕ, ◌≤◌, ◌≡◌, ◌≢◌, refl, sym, ap, ◌∙◌, Bool, true, false, List, [], ◌∷◌, none, some, Option-cases,
  inl, inr, get_elem?,
}
use golang_time_tracker.Base.Int.{ℤ}
use golang_time_tracker.Base.Text.{Text, text_eq}
use golang_time_tracker.Base.Paths.{clean, is_abs}
use golang_time_tracker.Escape.{escape}
use golang_time_tracker.Watcher.{Os, success, WatchEvent, ChildInfo, FileWatcher}
use golang_time_tracker.Watcher.Scan.Static.{Static, tree_events, HasDepth, paths, Fresh}
use golang_time_tracker.Watcher.Run.{Round, waiting, run, close_fd, watch_path}
use golang_time_tracker.Watcher.Run.Ends.{watch_path-scan}
use golang_time_tracker.Database.{Database, insert_or_ignore_tick, update_last_write}
use golang_time_tracker.Database.Rules.{Rules, set_last_write, label_or}
use golang_time_tracker.Server.State.{Server, returned}
use golang_time_tracker.Server.Watches.{Watch}
use golang_time_tracker.Server.Recording.{Choices, handle_event, record_write, record_writes_in_db}
use golang_time_tracker.Server.Recording.Batching.{
  handle_event_twice, events_lem, events_batched, written,
}
use golang_time_tracker.Server.Tables.{IsNamed, escape_verbatim}

module _ (D : Database) where
  -- The callback of the watcher of the watch at `i`, for each event.
  unfoldable pub handled : ℕ → List WatchEvent → Server D → Server D
  handled i [] s = s
  handled i (e ∷ es) s = handled i es (handle_event D i s)

  handled_lem :
      (i : ℕ) (e : WatchEvent) (es : List WatchEvent) (s : Server D)
      → handled i (e ∷ es) s ≡ handle_event D i s
  unfolding handled
  handled_lem i e [] s = refl
  handled_lem i e (f ∷ es) s = handled_lem i f es (handle_event D i s) ∙ handle_event_twice D i s

module _ (D : Database) (R : Rules D) where
  open R use {tick_at, watches_of}

  written_lem :
      (w : Watch) (now : ℤ) (db : D.Db)
      → IsNamed w.dir w.label
      → is_abs w.dir ≡ true
      → record_write D w now db ≢ none
      → (tick_at (written D true w now db) now ≡ some (label_or w.label (tick_at db now)))
        × (watches_of (written D true w now db) ≡ set_last_write now w.dir (watches_of db))
  unfolding written record_write
  written_lem w now db n abs h =
      elim (Option-cases (D.exec (insert_or_ignore_tick now (escape w.label)) db)) [
        | inl e ↦ absurd (h (rw (record_write, e) refl))
        | inr (mid, e) ↦ elim (Option-cases (D.exec (update_last_write now (escape w.dir)) mid)) [
          | inl f ↦ absurd (h (rw (record_write, e, f) refl))
          | inr (db', f) ↦
              let inserts : D.exec (insert_or_ignore_tick now w.label) db ≡ some mid =
                rw (escape_verbatim w.label n.1) at e in
              let updates : D.exec (update_last_write now w.dir) mid ≡ some db' =
                rw (escape_verbatim w.dir n.0) at f in
              let after : written D true w now db ≡ db' = rw (written, record_write, e, f) refl in
              rw after (
                R.ticks_kept (update_last_write now w.dir) mid db' now _ n.0 updates
                    (R.ignore_stored now w.label db mid n.1 inserts),
                R.updated now w.dir mid db' n.0 abs updates
                    ∙ ap (set_last_write now w.dir)
                        (R.ignore_watches now w.label db mid n.1 inserts),
              )
        ]
      ]

  -- What a round of recordWritesInDB for the watch `w` has made of the server `s`.
  pub record IsRecorded (i : ℕ) (w : Watch) (now : ℤ) (s s' : Server D) : Type 0 where
    pub ticked : tick_at s'.db now ≡ some (label_or w.label (tick_at s.db now))
    pub dated : watches_of s'.db ≡ set_last_write now w.dir (watches_of s.db)
    pub cleared : get_elem? s'.watches.heap i ≡ some (record w { has_pending = 0 })

  -- After one event or more that the callback of a running watch has been given, the next round of
  -- recordWritesInDB records a tick with the label of the watch, or leaves the one of that second,
  -- and sets the last write of its directory; if dbMu is free, the transaction begins and commits
  -- and its commands succeed, and the directory and the label are of plain printable characters,
  -- and the directory is absolute.
  handled-IsRecorded :
      (ch : Choices) (i : ℕ) (now : ℤ) (s : Server D) (w : Watch) (e : WatchEvent)
      (es : List WatchEvent)
      → get_elem? s.watches.heap i ≡ some w
      → w.cancelled ≡ false
      → s.db_locked ≡ false
      → ch.begins ≡ true
      → ch.commits ≡ true
      → IsNamed w.dir w.label
      → is_abs w.dir ≡ true
      → record_write D w now s.db ≢ none
      → (s' : Server D) × (record_writes_in_db D ch i now (handled D i (e ∷ es) s)
          ≡ returned (s', true))
        × IsRecorded i w now s s'
  handled-IsRecorded ch i now s w e es at_i running free begins commits n abs ok =
      let (s', recorded, db, cleared, _) =
        events_batched D ch ch i 0 now now s w at_i running free begins in
      let after : s'.db ≡ written D true w now s.db =
        db ∙ ap (λ c. written D c w now s.db) commits in
      let (ticked, dated) = written_lem w now s.db n abs ok in
      (
        s',
        ap (record_writes_in_db D ch i now) (handled_lem D i e es s ∙ sym (events_lem D i 0 s))
            ∙ recorded,
        record {
          ticked = ap (λ b. tick_at b now) after ∙ ticked;
          dated = ap watches_of after ∙ dated;
          cleared = cleared;
        },
      )

-- handleEvent never returns an error.
unfoldable pub handle_event_error : List WatchEvent → WatchEvent → Bool
handle_event_error seen e = true

module _ (D : Database) (R : Rules D) (O : Os) (listing : Text → List ChildInfo)
    (S : Static O handle_event_error listing) where
  -- Where the watcher of a running watch starts on a directory that holds an entry which its scan
  -- does not leave out, and that does not change before the first round, the next round of
  -- recordWritesInDB records a tick with the label of the watch, or leaves the one of that second,
  -- and sets the last write of the directory, although nothing has been written: if the system
  -- calls succeed, the fuel is the depth of the directory or more and no path comes twice, if dbMu
  -- is free, the transaction begins and commits and its commands succeed, and the directory and the
  -- label are of plain printable characters and the directory is absolute.
  pub scan-IsRecorded :
      (n fuel : ℕ) (d : Bool) (rounds : List Round) (k : O.Kernel) (ch : Choices) (i : ℕ) (now : ℤ)
      (s : Server D) (w : Watch) (e : WatchEvent) (es : List WatchEvent)
      → (O.stat (clean w.dir) k).0 ≡ success d
      → (O.inotify_init (O.stat (clean w.dir) k).1).0 ≡ success record {}
      → n ≤ fuel
      → HasDepth listing n (clean w.dir)
      → Fresh (text_eq (clean w.dir)) (paths (tree_events listing n (clean w.dir)))
      → tree_events listing n (clean w.dir) ≡ e ∷ es
      → get_elem? s.watches.heap i ≡ some w
      → w.cancelled ≡ false
      → s.db_locked ≡ false
      → ch.begins ≡ true
      → ch.commits ≡ true
      → IsNamed w.dir w.label
      → is_abs w.dir ≡ true
      → record_write D w now s.db ≢ none
      → (v : FileWatcher O) × (s' : Server D) × (watch_path O handle_event_error fuel w.dir rounds k
          ≡ close_fd O handle_event_error fuel
              (run O handle_event_error fuel rounds (waiting (v, []))))
        × (record_writes_in_db D ch i now (handled D i v.called s) ≡ returned (s', true))
        × IsRecorded D R i w now s s'
  scan-IsRecorded n fuel d rounds k ch i now s w e es is_there inited le deep fresh found at_i
        running free begins commits named abs ok =
      let (v, (started, (told, _))) =
        watch_path-scan O handle_event_error listing S n fuel w.dir d rounds k is_there inited le
          deep fresh in
      let (s', recorded, r) =
        handled-IsRecorded D R ch i now s w e es at_i running free begins commits named abs ok in
      (
        v,
        s',
        started,
        ap (λ c. record_writes_in_db D ch i now (handled D i c s)) (told ∙ found) ∙ recorded,
        r,
      )
