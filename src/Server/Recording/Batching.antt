-- ===== src/Server/Recording/Batching.antt =====
-- How recordWritesInDB and handleEvent (watch_daemon/api_impl.go) batch file events into ticks.
use golang_time_tracker.Base.{
  ℕ, zero, suc, ◌≡◌, refl, ap, ◌∙◌, ◌⊎◌, Bool, true, false, List, [], ◌∷◌, none, some, arith,
  if◌then◌else◌, Bool-cases, Option-cases, inl, inr, get_elem?,
}
use golang_time_tracker.Base.Int.{ℤ}
use golang_time_tracker.Escape.{escape}
use golang_time_tracker.Database.{Database, insert_or_ignore_tick, update_last_write}
use golang_time_tracker.Server.State.{Server, Outcome, returned, ◌>>=◌}
use golang_time_tracker.Server.Watches.{Watch}
use golang_time_tracker.Server.Handlers.{lock_db, lock_free}
use golang_time_tracker.Server.Recording.{
  Choices, set_pending, record_write, record_txn, record_round, record_writes_in_db, handle_event,
}

get_elem?-set_pending :
    (i n : ℕ) (heap : List Watch) (w : Watch)
    → get_elem? heap i ≡ some w
    → get_elem? (set_pending i n heap) i ≡ some (record w { has_pending = n })
unfolding set_pending
get_elem?-set_pending i n [] w h = cc
get_elem?-set_pending zero n (v ∷ heap) w h = ground arith
get_elem?-set_pending (suc i) n (v ∷ heap) w h = get_elem?-set_pending i n heap w h

set_pending_twice :
    (i m n : ℕ) (heap : List Watch) → set_pending i m (set_pending i n heap) ≡ set_pending i m heap
unfolding set_pending
set_pending_twice i m n [] = refl
set_pending_twice zero m n (v ∷ heap) = refl
set_pending_twice (suc i) m n (v ∷ heap) = ap (◌∷◌ v) (set_pending_twice i m n heap)

module _ (D : Database) where
  -- The database after a round's transaction.
  unfoldable pub written : Bool → Watch → ℤ → D.Db → D.Db
  written commits w now db = elim (record_write D w now db) [
    | none ↦ db
    | some db' ↦ if commits then db' else db
  ]

  -- Both commands of the transaction take effect, or neither does.
  pub written_atomic :
      (commits : Bool) (w : Watch) (now : ℤ) (db : D.Db)
      → (written commits w now db ≡ db)
        ⊎ ((mid : D.Db) × (D.exec (insert_or_ignore_tick now (escape w.label)) db ≡ some mid)
            × (D.exec (update_last_write now (escape w.dir)) mid ≡ some (written commits w now db)))
  unfolding written record_write
  written_atomic commits w now db =
      elim (Option-cases (D.exec (insert_or_ignore_tick now (escape w.label)) db)) [
        | inl e ↦ inl (rw (e, written, record_write))
        | inr (mid, e) ↦ elim (Option-cases (D.exec (update_last_write now (escape w.dir)) mid)) [
          | inl f ↦ inl (rw (e, f, written, record_write))
          | inr (db', f) ↦ elim (Bool-cases commits) [
            | inl c ↦ inr (mid, e, rw (e, f, c, written, record_write))
            | inr c ↦ inl (rw (e, f, c, written, record_write))
          ]
        ]
      ]

  pub record_txn_lem :
      (begins commits : Bool) (w : Watch) (now : ℤ) (s : Server D)
      → begins ≡ true
      → record_txn D begins commits w now s
        ≡ returned (record s { db = written commits w now s.db })
  unfolding record_txn written
  record_txn_lem false commits w now s b = cc
  record_txn_lem true commits w now s b = elim (Option-cases (record_write D w now s.db)) [
    | inl e ↦ simp (e, written)
    | inr (db', e) ↦ elim (Bool-cases commits) [
      | inl c ↦ simp (e, c, written)
      | inr c ↦ simp (e, c, written)
    ]
  ]

  abbrev record_cleared : Server D → Choices → Watch → ℤ → Outcome (Server D × Bool)
  record_cleared s ch w now = lock_db D s >>= λ s1.
      (record_txn D ch.begins ch.commits w now s1 >>= λ s2. returned (s2, true))

  round_pending :
      (ch : Choices) (i : ℕ) (w : Watch) (now : ℤ) (s : Server D)
      → w.cancelled ≡ false
      → w.has_pending ≡ 1
      → s.db_locked ≡ false
      → ch.begins ≡ true
      → record_round D ch i w now s
        ≡ returned (
          record s {
            db = written ch.commits w now s.db;
            watches = record s.watches { heap = set_pending i 0 s.watches.heap };
          },
          true,
        )
  unfolding record_round
  round_pending ch i w now s running pending free begins =
      let cleared : Server D = record s {
        watches = record s.watches { heap = set_pending i 0 s.watches.heap };
      } in
      let locked : record_round D ch i w now s ≡ record_cleared cleared ch w now =
        simp (running, pending) in
      locked
      ∙ lock_free D cleared
          (λ s1. record_txn D ch.begins ch.commits w now s1 >>= λ s2. returned (s2, true)) free
      ∙ simp (record_txn_lem ch.begins ch.commits w now cleared begins)

  round_idle :
      (ch : Choices) (i : ℕ) (w : Watch) (now : ℤ) (s : Server D)
      → w.cancelled ≡ false
      → w.has_pending ≡ 0
      → record_round D ch i w now s ≡ returned (s, true)
  unfolding record_round
  round_idle ch i w now s running none_pending = rw (running, none_pending)

  pub handle_event_twice :
      (i : ℕ) (s : Server D) → handle_event D i (handle_event D i s) ≡ handle_event D i s
  unfolding handle_event
  handle_event_twice i s =
      ap (λ h. record s { watches = record s.watches { heap = h } })
        (set_pending_twice i 1 1 s.watches.heap)

  -- `n + 1` events of a watch.
  pub events : ℕ → ℕ → Server D → Server D
  events i zero s = handle_event D i s
  events i (suc n) s = handle_event D i (events i n s)

  pub events_lem : (i n : ℕ) (s : Server D) → events i n s ≡ handle_event D i s
  unfolding events
  events_lem i zero s = refl
  events_lem i (suc n) s = rw (events_lem i n s) (handle_event_twice i s)

  -- However many events a running watch has received, the next round makes one transaction, given
  -- that dbMu is free and that the transaction can begin, and no event is left pending; the round
  -- after it changes nothing.
  pub events_batched :
      (ch ch' : Choices) (i n : ℕ) (now later : ℤ) (s : Server D) (w : Watch)
      → get_elem? s.watches.heap i ≡ some w
      → w.cancelled ≡ false
      → s.db_locked ≡ false
      → ch.begins ≡ true
      → (s' : Server D) × (record_writes_in_db D ch i now (events i n s) ≡ returned (s', true))
        × (s'.db ≡ written ch.commits w now s.db)
        × (get_elem? s'.watches.heap i ≡ some (record w { has_pending = 0 }))
        × (record_writes_in_db D ch' i later s' ≡ returned (s', true))
  unfolding record_writes_in_db handle_event written record_write
  events_batched ch ch' i n now later s w at_i running free begins =
      let heap : List Watch = set_pending i 1 s.watches.heap in
      let seen : get_elem? heap i ≡ some (record w { has_pending = 1 }) =
        get_elem?-set_pending i 1 s.watches.heap w at_i in
      let pending : Server D = record s { watches = record s.watches { heap = heap } } in
      let cleared = get_elem?-set_pending i 0 heap (record w { has_pending = 1 }) seen in
      (
        record s {
          db = written ch.commits w now s.db;
          watches = record s.watches { heap = set_pending i 0 heap };
        },
        ap (λ t. record_writes_in_db D ch i now t) (events_lem i n s)
            ∙ rw (handle_event, record_writes_in_db, seen)
                (round_pending ch i (record w { has_pending = 1 }) now pending running refl free
                  begins),
        refl,
        cleared,
        rw (record_writes_in_db, cleared)
            (round_idle ch' i (record w { has_pending = 0 }) later _ running refl),
      )
