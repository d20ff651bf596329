-- ===== src/Server/Lasting.antt =====
-- watch_daemon/api_impl.go: each round of a goroutine and each GetIntervals returns, and what it
-- leaves.
pub mod Calls
use golang_time_tracker.Base.{
  ℕ, ◌≡◌, refl, sym, ap, ◌∙◌, ◌⊎◌, Bool, true, false, ◌==◌, ◌&&◌, not, List, some, Option-cases,
  Bool-cases, inl, inr, get_elem?,
}
use golang_time_tracker.Base.Int.{ℤ, add64, sub64}
use golang_time_tracker.Base.Halt.{done}
use golang_time_tracker.Client.{GetIntervalsRequest, GetIntervalsResponse}
use golang_time_tracker.Database.{Database, TickRow}
use golang_time_tracker.Database.Rules.{Rules}
use golang_time_tracker.Server.State.{
  Server, Outcome, returned, blocked, crashed, db_error, ok, err, ◌>>=◌,
}
use golang_time_tracker.Server.Watches.{Watch}
use golang_time_tracker.Server.Handlers.{lock_db, lock_free, watch, get_intervals}
use golang_time_tracker.Server.Intervals.{intervals_of}
use golang_time_tracker.Server.Intervals.Union.{intervals_of-union}
use golang_time_tracker.Server.Recording.{
  Choices, record_txn, record_round, record_writes_in_db, set_pending,
}
use golang_time_tracker.Server.Recording.Batching.{written, written_atomic, record_txn_lem}
use golang_time_tracker.Server.Invariant.{IsTable, IsTable-set_where}
use golang_time_tracker.Server.Tables.{IsNamed, escape_verbatim}
use golang_time_tracker.Server.Running.{AllNamed-set_pending, AllNamed-get, AreRunning-set_pending}
use golang_time_tracker.Server.Steps.{IsServer}
use golang_time_tracker.Server.Calls.{left, call_get_intervals}
use golang_time_tracker.Server.Lasting.Calls.{IsFair, Lasts, with_table}

module _ (D : Database) (R : Rules D) where
  open R use {watches_of}

  written-IsTable :
      (commits : Bool) (w : Watch) (now : ℤ) (db : D.Db)
      → IsNamed w.dir w.label
      → IsTable (watches_of db)
      → IsTable (watches_of (written D commits w now db))
  written-IsTable commits w now db n h = elim (written_atomic D commits w now db) [
    | inl same ↦ rw same h
    | inr (mid, inserts, updates) ↦
        let (hit, after) =
          R.updated_where now w.dir mid (written D commits w now db) n.0
            (rw (escape_verbatim w.dir n.0) at updates) in
        let inserted =
          R.ignore_watches now w.label db mid n.1 (rw (escape_verbatim w.label n.1) at inserts) in
        rw (after, inserted) (IsTable-set_where now hit (watches_of db) h)
  ]

  -- The server with the flag of the watch at `i` set or cleared.
  abbrev pub flagged : ℕ → ℕ → Server D → Server D
  flagged i n s = record s { watches = record s.watches { heap = set_pending i n s.watches.heap } }

  pub flagged-IsServer : (i n : ℕ) (s : Server D) → IsServer D R s → IsServer D R (flagged i n s)
  flagged-IsServer i n s v = record {
    table = v.table;
    map_keys = v.map_keys;
    running = AreRunning-set_pending i n s.watches v.running;
    named = AllNamed-set_pending IsNamed i n s.watches.heap v.named;
    free = v.free;
    gap_nonneg = v.gap_nonneg;
  }

  pub record-Lasts :
      (ch : Choices) (i : ℕ) (now : ℤ) (s : Server D) (w : Watch)
      → IsServer D R s
      → ch.begins ≡ true
      → get_elem? s.watches.heap i ≡ some w
      → Lasts D R (left (record_round D ch i w now s))
  unfolding record_round
  record-Lasts ch i now s w v begins seen = elim (Bool-cases (w.cancelled && not ch.ticker_first)) [
    | inl e ↦ (s, rw e refl, inl v)
    | inr e ↦ elim (Bool-cases (w.has_pending == 1)) [
      | inr f ↦ (s, rw (e, f) refl, inl v)
      | inl f ↦
          let cleared : Server D = flagged i 0 s in
          let p : (lock_db D cleared >>= λ s1.
          (record_txn D ch.begins ch.commits w now s1 >>= λ s2. returned (s2, true)))
              ≡ returned (record cleared { db = written D ch.commits w now s.db }, true) =
            lock_free D cleared _ v.free
            ∙ (rw (record_txn_lem D ch.begins ch.commits w now cleared begins)) in
          (
            record cleared { db = written D ch.commits w now s.db },
            rw (e, f) (ap left p),
            inl (
                with_table D R cleared (written D ch.commits w now s.db)
                  (written-IsTable ch.commits w now s.db
                    (AllNamed-get IsNamed s.watches.heap i w seen v.named) v.table)
                  (flagged-IsServer i 0 s v)),
          )
    ]
  ]

  abbrev transacted : Server D → Choices → Watch → ℤ → Outcome (Server D × Bool)
  transacted s ch w now = record_txn D ch.begins ch.commits w now s >>= λ s2. returned (s2, true)

  transacted-returned :
      (s t : Server D) (ch : Choices) (w : Watch) (now : ℤ) (b : Bool)
      → ch.begins ≡ b
      → left (transacted s ch w now) ≡ returned t
      → t ≡ record s { db = written D ch.commits w now s.db }
  unfolding record_txn
  transacted-returned s t ch w now true b f =
      let p : returned (record s { db = written D ch.commits w now s.db }) ≡ returned t =
        rw (record_txn_lem D ch.begins ch.commits w now s b) at f in
      cc
  transacted-returned s t ch w now false b f =
      (let p : crashed ≡ returned t = rw (record_txn, b) at f in cc)

  -- Where a round of recordWritesInDB returns, it has done nothing or made its transaction.
  pub record-returned :
      (ch : Choices) (i : ℕ) (now : ℤ) (s t : Server D)
      → left (record_writes_in_db D ch i now s) ≡ returned t
      → (t ≡ s)
        ⊎ ((w : Watch) × (get_elem? s.watches.heap i ≡ some w)
            × (s.db_locked ≡ false)
            × (t ≡ record (flagged i 0 s) { db = written D ch.commits w now s.db }))
  unfolding record_writes_in_db record_round lock_db
  record-returned ch i now s t e = elim (Option-cases (get_elem? s.watches.heap i)) [
    | inl f ↦ (let p : crashed ≡ returned t = rw (record_writes_in_db, f) at e in cc)
    | inr (w, f) ↦ elim (round w (rw (record_writes_in_db, f) at e)) [
      | inl same ↦ inl same
      | inr (free, made) ↦ inr (w, f, free, made)
    ]
  ]
    where
      round :
          (w : Watch)
          → left (record_round D ch i w now s) ≡ returned t
          → (t ≡ s)
            ⊎ ((s.db_locked ≡ false)
                × (t ≡ record (flagged i 0 s) { db = written D ch.commits w now s.db }))
      round w f = elim (Bool-cases (w.cancelled && not ch.ticker_first)) [
        | inl a ↦ (let p : returned s ≡ returned t = rw (record_round, a) at f in inl cc)
        | inr a ↦ elim (Bool-cases (w.has_pending == 1)) [
          | inr b ↦ (let p : returned s ≡ returned t = rw (record_round, a, b) at f in inl cc)
          | inl b ↦ elim (Bool-cases s.db_locked) [
            | inl l ↦
                (let p : blocked ≡ returned t = rw (record_round, lock_db, a, b, l) at f in cc)
            | inr l ↦
                let cleared : Server D = flagged i 0 s in
                let p : left (lock_db D cleared >>= λ s1. transacted s1 ch w now) ≡ returned t =
                  rw (record_round, a, b) at f in
                inr (
                  l,
                  transacted-returned cleared t ch w now ch.begins refl
                      (ap left (sym (lock_free D cleared (λ s1. transacted s1 ch w now) l)) ∙ p),
                )
          ]
        ]
      ]

  pub intervals-Lasts :
      (req : GetIntervalsRequest) (now : ℤ) (s : Server D)
      → IsServer D R s
      → IsFair D R s (call_get_intervals req now)
      → Lasts D R (get_intervals D req now s >>= λ r. returned s)
  unfolding get_intervals
  intervals-Lasts req now s v (time, times) =
      elim (Option-cases
        (D.select_ticks (sub64 req.start s.max_event_gap) (add64 req.end s.max_event_gap) s.db)) [
          | inl e ↦
              let p : get_intervals D req now s ≡ returned (err db_error) =
                lock_free D s _ v.free ∙ (rw e) in
              (s, rw p refl, inl v)
          | inr (rows, e) ↦ (
            s,
            read rows _ e
                (intervals_of-union req s.max_event_gap now rows v.gap_nonneg time (times rows e)),
            inl v,
          )
        ]
    where
      read :
          (rows : List TickRow) (resp : GetIntervalsResponse)
          → D.select_ticks (sub64 req.start s.max_event_gap) (add64 req.end s.max_event_gap) s.db
            ≡ some rows
          → intervals_of req s.max_event_gap now rows ≡ done resp
          → (get_intervals D req now s >>= λ r. returned s) ≡ returned s
      read rows resp e p =
          let q : get_intervals D req now s ≡ returned (ok resp) =
            lock_free D s _ v.free ∙ (rw (e, p)) in
          rw q refl
