-- ===== src/Server/Keeping.antt =====
-- watch_daemon/api_impl.go: no recorded tick is lost but by Clear.
pub mod Calls
use golang_time_tracker.Base.{
  ℕ, ◌+◌, ◌≡◌, leb, if◌then◌else◌, refl, sym, ap, ◌∙◌, false, none, some, arith, Option-cases,
  Bool-cases, inl, inr,
}
use golang_time_tracker.Base.Int.{ℤ}
use golang_time_tracker.Client.{TickRequest, TickResponse}
use golang_time_tracker.Escape.{escape}
use golang_time_tracker.Database.{Database, insert_tick}
use golang_time_tracker.Database.Rules.{Rules, IsVerbatim}
use golang_time_tracker.Server.State.{
  Server, Outcome, returned, blocked, crashed, stuck_loop, db_error, Result, ok, err, ◌>>=◌,
}
use golang_time_tracker.Server.Handlers.{
  lock_free, sync_watches, watch, tick, get_watches, get_intervals,
}
use golang_time_tracker.Server.Recording.{Choices, handle_event, sync_round}
use golang_time_tracker.Server.Tables.{IsNamed, escape_verbatim}
use golang_time_tracker.Server.Running.{AllNamed-get}
use golang_time_tracker.Server.Steps.{IsServer, locked-Hangs}
use golang_time_tracker.Server.Calls.{
  left, Call, call_tick, call_watch, call_get_watches, call_get_intervals, call_clear, round_sync,
  round_record, file_event, perform, Runs, rests, goes,
}
use golang_time_tracker.Server.Lasting.Calls.{IsFair}
use golang_time_tracker.Server.Lasting.{record-returned}
use golang_time_tracker.Server.Runs.{Holds, perform-Holds, perform-locked}
use golang_time_tracker.Server.Keeping.Calls.{
  Kept, KeptBy, returned-KeptBy, sync_watches-Kept, watch-Kept, tick-none-Kept, tick-Kept,
  written-Kept,
}

-- Calls that are not Clear, with labels of plain printable characters.
abbrev pub KeepsCall : Call → Type 0
KeepsCall (call_tick (some req) now) = IsVerbatim req.label
KeepsCall call_clear = ⊥
KeepsCall _ = Unit

module _ (D : Database) (R : Rules D) where
  open R use {tick_at}

  Kept-left :
      {A : Type 0} (db : D.Db) (o : Outcome (Server D × A)) (t : Server D)
      → KeptBy D R db o
      → left o ≡ returned t
      → Kept D R db t.db
  Kept-left db (returned (s, r)) t k e = let same : s ≡ t = cc in rw (← same) (k s r refl)
  Kept-left db blocked t k e = cc
  Kept-left db crashed t k e = cc
  Kept-left db stuck_loop t k e = cc

  read_left :
      {A : Type 0} (s t : Server D) (o : Outcome A)
      → (o >>= λ r. returned s) ≡ returned t
      → Kept D R s.db t.db
  read_left s t (returned r) e = let same : s ≡ t = cc in rw (← same) (λ u l h. h)
  read_left s t blocked e = cc
  read_left s t crashed e = cc
  read_left s t stuck_loop e = cc

  -- What sync_round makes of what syncWatches returns.
  abbrev counted : ℕ → Server D × Result (Unit {0}) → Outcome (Server D × ℕ)
  counted err_count r =
      (let count = err_count + elim r.1 [ ok _ ↦ 0 | err _ ↦ 1 ] in
        if leb 3 count then crashed else returned (r.0, count))

  counted-Kept :
      (err_count : ℕ) (s s1 : Server D) (r : Result (Unit {0}))
      → Kept D R s.db s1.db
      → KeptBy D R s.db (counted err_count (s1, r))
  counted-Kept err_count s s1 r k t n e =
      elim (Bool-cases (leb 3 (err_count + elim r [ ok _ ↦ 0 | err _ ↦ 1 ]))) [
        | inl b ↦
            (let p : ◌≡◌ {A = Outcome (Server D × ℕ)} crashed (returned (t, n)) = rw b at e in cc)
        | inr b ↦ returned-KeptBy D R s.db s1 _ k t n (rw b at e)
      ]

  sync_round-Kept : (err_count : ℕ) (s : Server D) → KeptBy D R s.db (sync_round D err_count s)
  unfolding sync_round
  sync_round-Kept err_count s t n e = synced (sync_watches D s) (sync_watches-Kept D R s) e
    where
      synced :
          (o : Outcome (Server D × Result (Unit {0})))
          → KeptBy D R s.db o
          → (o >>= counted err_count) ≡ returned (t, n)
          → Kept D R s.db t.db
      synced (returned (s1, r)) k f = counted-Kept err_count s s1 r (k s1 r refl) t n f
      synced blocked k f = cc
      synced crashed k f = cc
      synced stuck_loop k f = cc

  record-Kept :
      (ch : Choices) (i : ℕ) (now : ℤ) (s t : Server D)
      → IsServer D R s
      → perform D (round_record ch i now) s ≡ returned t
      → Kept D R s.db t.db
  unfolding perform
  record-Kept ch i now s t v e = elim (record-returned D R ch i now s t e) [
    | inl same ↦ rw same (λ u l h. h)
    | inr (w, seen, free, made) ↦ rw made (
        written-Kept D R ch.commits w now s.db
          (AllNamed-get IsNamed s.watches.heap i w seen v.named))
  ]

  perform-Kept :
      (c : Call) (s t : Server D)
      → IsServer D R s
      → IsFair D R s c
      → KeepsCall c
      → perform D c s ≡ returned t
      → Kept D R s.db t.db
  unfolding perform handle_event
  perform-Kept (call_tick none now) s t v f k e =
      Kept-left s.db (tick D none now s) t (tick-none-Kept D R now s) e
  perform-Kept (call_tick (some req) now) s t v f k e =
      Kept-left s.db (tick D (some req) now s) t (tick-Kept D R req now s k) e
  perform-Kept (call_watch req now) s t v f k e =
      Kept-left s.db (watch D req now s) t (watch-Kept D R req now s f) e
  perform-Kept call_get_watches s t v f k e = read_left s t (get_watches D s) e
  perform-Kept (call_get_intervals req now) s t v f k e =
      read_left s t (get_intervals D req now s) e
  perform-Kept call_clear s t v f k e = absurd k
  perform-Kept (round_sync err_count) s t v f k e =
      Kept-left s.db (sync_round D err_count s) t (sync_round-Kept err_count s) e
  perform-Kept (round_record ch i now) s t v f k e = record-Kept ch i now s t v e
  perform-Kept (file_event i) s t v f k e =
      (let same : handle_event D i s ≡ t = cc in rw (← same) (λ u l h. h))

  -- A tick that the table `ticks` holds is still there, with its label, after any calls and rounds
  -- of goroutines that return and rely on what they may, if Clear is not among them and the labels
  -- of new ticks are of plain printable characters.
  Runs-Kept :
      (s t : Server D)
      → Holds D R s
      → Runs D (λ u c. IsFair D R u c × KeepsCall c) s t
      → Kept D R s.db t.db
  Runs-Kept s t v runs = (holds t runs).1
    where
      step :
          (t u : Server D) (c : Call)
          → Holds D R t × Kept D R s.db t.db
          → IsFair D R t c × KeepsCall c
          → perform D c t ≡ returned u
          → Kept D R s.db u.db
      step t u c (inl v, kept) (f, k) e = λ x l h. perform-Kept c t u v f k e x l (kept x l h)
      step t u c (inr locked, kept) (f, k) e = rw ((perform-locked D R c t u locked e).1) kept

      holds :
          (t : Server D)
          → Runs D (λ u c. IsFair D R u c × KeepsCall c) s t
          → Holds D R t × Kept D R s.db t.db
      holds _ rests = (v, λ u l h. h)
      holds _ (goes {t = t} {u = u} c before f e) =
          let h = holds t before in (perform-Holds D R c t u h.0 f.0 e, step t u c h f e)

  pub Runs-Holds :
      (s t : Server D)
      → Holds D R s
      → Runs D (λ u c. IsFair D R u c × KeepsCall c) s t
      → Holds D R t
  Runs-Holds s _ v rests = v
  Runs-Holds s _ v (goes {t = t} {u = u} c before f e) =
      perform-Holds D R c t u (Runs-Holds s t v before) f.0 e

  tick_stored :
      (req : TickRequest) (now : ℤ) (resp : TickResponse) (s s' : Server D)
      → IsVerbatim req.label
      → tick D (some req) now s ≡ returned (s', ok resp)
      → tick_at s'.db now ≡ some req.label
  unfolding tick
  tick_stored req now resp s s' n e = elim (Bool-cases s.db_locked) [
    | inl l ↦ absurd (ground (arith, (locked-Hangs D s l).ticks (some req) now))
    | inr free ↦ stored free
  ]
    where
      stored : s.db_locked ≡ false → tick_at s'.db now ≡ some req.label
      stored free = elim (Option-cases (D.exec (insert_tick now (escape req.label)) s.db)) [
        | inl f ↦
            let p : ◌≡◌ {A = Outcome (Server D × Result TickResponse)} (returned (s, err db_error))
                (returned (s', ok resp)) =
              rw f at (sym (lock_free D s _ free) ∙ e) in
            cc
        | inr (db, f) ↦
            let p : ◌≡◌ {A = Outcome (Server D × Result TickResponse)}
                (returned (record s { db = db }, ok (record { now = now })))
                (returned (s', ok resp)) =
              rw f at (sym (lock_free D s _ free) ∙ e) in
            let after : record s { db = db } ≡ s' = cc in
            rw (← after) (
              ground (
                arith,
                R.tick_stored now req.label s.db db n (rw (escape_verbatim req.label n) at f) now,
              ))
      ]

  -- From a server that is as it should be, or whose dbMu is held for good, after a successful Tick
  -- with a label of plain printable characters the table `ticks` holds the label at the second of
  -- the call, after any further calls but Clear and rounds of goroutines that return and are as
  -- IsFair says: labels and directories of such characters, times far from overflowing, rounds of
  -- syncWatchesLoop after fewer than two errors, rounds of recordWritesInDB of a watch that exists
  -- and can begin its transaction.
  pub tick_stays :
      (req : TickRequest) (now : ℤ) (resp : TickResponse) (s s' t : Server D)
      → Holds D R s
      → IsVerbatim req.label
      → tick D (some req) now s ≡ returned (s', ok resp)
      → Runs D (λ u c. IsFair D R u c × KeepsCall c) s' t
      → tick_at t.db now ≡ some req.label
  unfolding perform
  tick_stays req now resp s s' t v n e runs =
      Runs-Kept s' t after runs now req.label (tick_stored req now resp s s' n e)
    where
      after : Holds D R s'
      after = perform-Holds D R (call_tick (some req) now) s s' v n (ap left e)
