-- ===== src/Server/Runs.antt =====
-- watch_daemon/api_impl.go: what holds of the server after any calls at all.
use golang_time_tracker.Base.{
  ℕ, ◌*◌, ◌≡◌, refl, sym, ◌∙◌, ◌⊎◌, true, false, [], arith, Option-cases, inl, inr, get_elem?,
}
use golang_time_tracker.Base.Int.{ℤ, pos}
use golang_time_tracker.Database.{Database, create_tables}
use golang_time_tracker.Database.Rules.{Rules}
use golang_time_tracker.Server.State.{
  Server, Outcome, returned, blocked, crashed, stuck_loop, s_minute, ok, ◌>>=◌,
}
use golang_time_tracker.Server.Handlers.{new_server, get_watches, get_intervals}
use golang_time_tracker.Server.Recording.{
  Choices, record_round, record_writes_in_db, handle_event, sync_round,
}
use golang_time_tracker.Server.Invariant.{IsTable}
use golang_time_tracker.Server.Steps.{IsServer, Hangs, locked-Hangs}
use golang_time_tracker.Server.Reading.{get_watches_lem}
use golang_time_tracker.Server.Calls.{
  left, Call, call_tick, call_watch, call_get_watches, call_get_intervals, call_clear, round_sync,
  round_record, file_event, perform, Runs, rests, goes,
}
use golang_time_tracker.Server.Lasting.Calls.{
  IsFair, Lasts, tick-Lasts, watch-Lasts, clear-Lasts, sync_round-Lasts,
}
use golang_time_tracker.Server.Lasting.{
  flagged, flagged-IsServer, record-Lasts, intervals-Lasts, record-returned,
}
use golang_time_tracker.Base.Table.{lookup}

module _ (D : Database) (R : Rules D) where
  open R use {watches_of}

  -- From a server as it should be, every call and every round of a goroutine returns, and leaves
  -- the server as it should be, or with dbMu held. The labels and directories of ticks and new
  -- watches are of plain printable characters, the times of the ticks and of the present do not
  -- overflow, a round of syncWatchesLoop has seen fewer than two errors, and a round of
  -- recordWritesInDB is of a watch that has been made and can begin its transaction.
  pub perform-Lasts :
      (c : Call) (s : Server D) → IsServer D R s → IsFair D R s c → Lasts D R (perform D c s)
  unfolding perform record_writes_in_db handle_event
  perform-Lasts (call_tick req now) s v h = tick-Lasts D R req now s v h
  perform-Lasts (call_watch req now) s v h = watch-Lasts D R req now s v h
  perform-Lasts call_get_watches s v h =
      let (infos, e, _, _) = get_watches_lem D R s v in (s, rw e refl, inl v)
  perform-Lasts (call_get_intervals req now) s v h = intervals-Lasts D R req now s v h
  perform-Lasts call_clear s v h = clear-Lasts D R s v
  perform-Lasts (round_sync err_count) s v h = sync_round-Lasts D R err_count s v h
  perform-Lasts (round_record ch i now) s v h = elim (Option-cases (get_elem? s.watches.heap i)) [
    | inl e ↦ absurd (h.1 e)
    | inr (w, e) ↦ rw (perform, record_writes_in_db, e) (record-Lasts D R ch i now s w v h.0 e)
  ]
  perform-Lasts (file_event i) s v h = (flagged D R i 1 s, refl, inl (flagged-IsServer D R i 1 s v))

  pub new_server-IsServer :
      (db : D.Db) (s : Server D) → new_server D db ≡ ok s → IsTable (watches_of db) → IsServer D R s
  unfolding new_server
  new_server-IsServer db s h table = elim (Option-cases (D.exec create_tables db)) [
    | inl e ↦ ground (arith, e)
    | inr (db', e) ↦
        let made : Server D = record {
          max_event_gap = pos (23 * s_minute);
          db = db';
          db_locked = false;
          watches = record { heap = []; watches = [] };
        } in
        let p : ok made ≡ ok s = sym (rw (e, new_server)) ∙ h in
        let same : made ≡ s = cc in
        rw (← same) (record {
          table = rw (R.created db db' e) table;
          map_keys = tt;
          running = λ k i f. unfold lookup in cc;
          named = tt;
          free = refl;
          gap_nonneg = omega arith;
        })
  ]

  abbrev Stays : Server D → Server D → Type 0
  Stays s t = (t.db_locked ≡ true) × (t.db ≡ s.db)

  -- Where dbMu is held by a call that has returned, it stays so, and the database as it is.
  pub perform-locked :
      (c : Call) (s t : Server D) → s.db_locked ≡ true → perform D c s ≡ returned t → Stays s t
  unfolding perform sync_round record_writes_in_db record_round handle_event
  perform-locked c s t h e = locked c (locked-Hangs D s h) e
    where
      idle : {A : Type 0} (o : Outcome A) → (o >>= λ r. returned s) ≡ returned t → Stays s t
      idle (returned r) f = let same : s ≡ t = cc in rw (← same) (h, refl)
      idle blocked f = cc
      idle crashed f = cc
      idle stuck_loop f = cc

      rounds :
          (ch : Choices) (i : ℕ) (now : ℤ)
          → left (record_writes_in_db D ch i now s) ≡ returned t
          → Stays s t
      rounds ch i now f = elim (record-returned D R ch i now s t f) [
        | inl same ↦ rw same (h, refl)
        | inr (w, seen, free, made) ↦ absurd (ground (arith, h))
      ]

      locked : (c : Call) → Hangs D s → perform D c s ≡ returned t → Stays s t
      locked (call_tick req now) v f = ground (arith, v.ticks req now)
      locked (call_watch req now) v f = ground (arith, v.watches req now)
      locked call_get_watches v f = idle (get_watches D s) f
      locked (call_get_intervals req now) v f = idle (get_intervals D req now s) f
      locked call_clear v f = ground (arith, v.clears)
      locked (round_sync err_count) v f = ground (arith, v.syncs)
      locked (round_record ch i now) v f = rounds ch i now f
      locked (file_event i) v f = let same : flagged D R i 1 s ≡ t = cc in rw (← same) (h, refl)

  -- A server as it should be, or one whose dbMu is held for good.
  abbrev pub Holds : Server D → Type 0
  Holds t = IsServer D R t ⊎ (t.db_locked ≡ true)

  pub perform-Holds :
      (c : Call) (t u : Server D) → Holds t → IsFair D R t c → perform D c t ≡ returned u → Holds u
  perform-Holds c t u (inl v) f e =
      let (u', e', w) = perform-Lasts c t v f in
      let p : returned u' ≡ returned u = sym e' ∙ e in let same : u' ≡ u = cc in rw (← same) w
  perform-Holds c t u (inr h) f e = inr (perform-locked c t u h e).0

  -- From NewServer on a database whose table of watches is as it should be, whatever calls and
  -- rounds of goroutines follow, as far as they return and are as IsFair says (labels and
  -- directories of plain printable characters, times far from overflowing, rounds of
  -- syncWatchesLoop after fewer than two errors, rounds of recordWritesInDB of a watch that exists
  -- and can begin its transaction), the server is as it should be, or dbMu is held by a call that
  -- has returned and every call that needs the database hangs.
  pub Runs-IsServer :
      (db : D.Db) (s t : Server D)
      → new_server D db ≡ ok s
      → IsTable (watches_of db)
      → Runs D (IsFair D R) s t
      → IsServer D R t ⊎ Hangs D t
  Runs-IsServer db s t made table runs = elim (holds t runs) [
    | inl v ↦ inl v
    | inr e ↦ inr (locked-Hangs D t e)
  ]
    where
      holds : (t : Server D) → Runs D (IsFair D R) s t → Holds t
      holds _ rests = inl (new_server-IsServer db s made table)
      holds _ (goes {t = t} {u = u} c before f e) = perform-Holds c t u (holds t before) f e
