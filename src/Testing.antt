-- ===== src/Testing.antt =====
-- watch_daemon/testlib.go: the daemon that the tests run, with a clock that they set.
pub mod Ticking
use golang_time_tracker.Base.{
  ℕ, zero, suc, ◌+◌, ◌/◌, ◌≡◌, ◌↔◌, ◌<◌, ◌≤◌, ◌==◌, refl, Bool, true, false, not, List, [], ◌∷◌,
  Option, none, some, arith, if◌then◌else◌, Bool-cases, Option-cases, sym, inl, inr,
}
use golang_time_tracker.Base.Int.{ℤ, pos, negsuc, wrap64, ◌-ℤ◌}
use golang_time_tracker.Base.Text.{Text}
use golang_time_tracker.Clock.{TestingClock, add, now}
use golang_time_tracker.Cli.{scale}
use golang_time_tracker.Database.{Database, create_tables}
use golang_time_tracker.Database.Rules.{Rules}
use golang_time_tracker.Server.State.{Server, Outcome, returned, Result, ok, err, ◌>>=◌}
use golang_time_tracker.Server.Handlers.{new_server}
use golang_time_tracker.Server.Steps.{IsServer}
use golang_time_tracker.Server.Runs.{new_server-IsServer}
use golang_time_tracker.Http.Serve.{Clocks}
use golang_time_tracker.Viz.{Templates}
use golang_time_tracker.Remote.{answer, failure, client_tick}

-- time.Duration(i * int64(time.Minute)), in nanoseconds.
unfoldable pub minutes : ℤ → ℤ
minutes i = wrap64 (scale i 60000000000)

-- Unix of a time in nanoseconds, rounded down.
unfoldable pub unix : ℤ → ℤ
unix (pos n) = pos (n / 1000000000)
unix (negsuc n) = negsuc (n / 1000000000)

-- What the handlers see of the clock; `started` is its time when the daemon started.
unfoldable pub seen : TestingClock → ℤ → Clocks
unfolding unix now
seen clock started = record { now = unix (now clock); uptime = now clock -ℤ started }

-- The loop of StartServing, `left` rounds before its end: whether Status succeeds in one of them.
-- If not, log.Fatalf ends the test.
unfoldable wait_for_server : ℕ → ℕ → (ℕ → Bool) → Bool
wait_for_server zero i status = false
wait_for_server (suc left) i status =
    let rest = wait_for_server left (suc i) status in if status i then true else rest

unfoldable start_serving : (ℕ → Bool) → Bool
unfolding wait_for_server
start_serving = wait_for_server 60 0

module _ (D : Database) (midnight : ℕ → ℤ) (T : Templates) (address : Text) where
  -- TickAt, up to the first Tick that fails, at which check.T ends the test: `false`.
  unfoldable pub tick_at :
      Text → List ℤ → TestingClock → ℤ → Server D → Outcome (Server D × TestingClock × Bool)
  unfolding minutes seen
  tick_at label [] clock started s = returned (s, clock, true)
  tick_at label (i ∷ intervals) clock started s =
      let later = add (minutes i) clock in
      client_tick D midnight T address label (seen later started) s >>= λ r. elim r.1 [
        | answer resp ↦ tick_at label intervals later started r.0
        | failure e ↦ returned (r.0, later, false)
      ]

module _ (D : Database) where
  -- StartTestServer: whether the old directory can be removed and a new one be made, the database
  -- in it, and whether Status succeeds in the rounds of StartServing. `none` ends the test.
  unfoldable start_test_server : (removes makes : Bool) → D.Db → (ℕ → Bool) → Option (Server D)
  start_test_server removes makes fresh status =
      if not removes then none else if not makes then none else elim (new_server D fresh) [
        | err e ↦ none
        | ok s ↦ if start_serving status then some s else none
      ]

  -- Restart: NewServer on the database of the server, whose watches are forgotten.
  unfoldable restart : Server D → Result (Server D)
  restart s = new_server D s.db

-- The tests begin exactly if Status succeeds in one of the rounds.
wait_for_server_iff :
    (left i : ℕ) (status : ℕ → Bool)
    → (wait_for_server left i status ≡ true)
      ↔ ((k : ℕ) × (i ≤ k) × (k < i + left) × (status k ≡ true))
unfolding wait_for_server
wait_for_server_iff left i status = (found left i, reached left i)
  where
    found :
        (left i : ℕ)
        → wait_for_server left i status ≡ true
        → (k : ℕ) × (i ≤ k) × (k < i + left) × (status k ≡ true)
    found zero i h = cc
    found (suc left) i h = elim (Bool-cases (status i)) [
      | inl e ↦ (i, omega arith, omega arith, e)
      | inr e ↦
          let (k, le, lt, f) = found left (suc i) (rw (wait_for_server, e) at h) in
          (k, omega arith, omega arith, f)
    ]

    reached :
        (left i : ℕ)
        → (k : ℕ) × (i ≤ k) × (k < i + left) × (status k ≡ true)
        → wait_for_server left i status ≡ true
    reached zero i (k, le, lt, f) = absurd (omega arith)
    reached (suc left) i (k, le, lt, f) = elim (Bool-cases (status i)) [
      | inl e ↦ rw (wait_for_server, e) refl
      | inr e ↦
          rw (wait_for_server, e)
            (elim (Bool-cases (k == i)) [
              | inl same ↦ (let at_i : k ≡ i = ground arith in absurd (ground arith))
              | inr other ↦ reached left (suc i) (k, ground arith, omega arith, f)
            ])
    ]

module _ (D : Database) (R : Rules D) where
  open R use {watches_of}

  -- A daemon that is restarted from one as it should be is as it should be; it has forgotten its
  -- watches and kept the table of watches and every tick.
  restart-IsServer :
      (s s' : Server D)
      → IsServer D R s
      → restart D s ≡ ok s'
      → IsServer D R s'
        × (s'.watches.watches ≡ [])
        × (watches_of s'.db ≡ watches_of s.db)
        × ((t : ℤ) (l : Text) → R.tick_at s.db t ≡ some l → R.tick_at s'.db t ≡ some l)
  unfolding restart new_server
  restart-IsServer s s' v e = elim (Option-cases (D.exec create_tables s.db)) [
    | inl f ↦ ground (arith, f)
    | inr (db, f) ↦
        let p = rw (restart, new_server, f) at e in
        let forgot : [] ≡ s'.watches.watches = ground arith in
        let opened : db ≡ s'.db = ground arith in
        (
          new_server-IsServer D R s.db s' e v.table,
          sym forgot,
          rw (← opened) (R.created s.db db f),
          λ t l h. rw (← opened) (R.ticks_kept create_tables s.db db t l tt f h),
        )
  ]
