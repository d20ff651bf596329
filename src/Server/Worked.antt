-- ===== src/Server/Worked.antt =====
-- watch_daemon/api_impl.go from Tick to GetIntervals: that the time between two ticks is in the
-- answer.
use golang_time_tracker.Base.{
  ◌≡◌, ap, ◌∙◌, ◌⊎◌, true, false, List, [], ◌∷◌, some, arith, Bool-cases, inl, inr,
}
use golang_time_tracker.Base.Int.{ℤ, pos, ltb_ℤ, IsTime, int_laws, ◌-ℤ◌, ◌≤ℤ◌, ◌<ℤ◌}
use mathlib.Core.List.{Memᴰ}
use golang_time_tracker.Client.{
  TickRequest, TickResponse, GetIntervalsRequest, GetIntervalsResponse,
}
use golang_time_tracker.Database.{Database, TickRow}
use golang_time_tracker.Database.Rules.{Rules, IsVerbatim}
use golang_time_tracker.Collector.Coverage.{covers, Ascends}
use golang_time_tracker.Server.State.{Server, returned, ok, err, db_error}
use golang_time_tracker.Server.Handlers.{tick, get_intervals}
use golang_time_tracker.Server.Intervals.Tallying.{times}
use golang_time_tracker.Server.Intervals.Report.{AreTicks}
use golang_time_tracker.Server.Intervals.Window.{worked, worked_from}
use golang_time_tracker.Server.Answering.{ReadsInOrder, get_intervals-Answers}
use golang_time_tracker.Server.Steps.{IsServer}
use golang_time_tracker.Server.Calls.{call_tick, perform, left, Runs, Runs-trans, goes}
use golang_time_tracker.Server.Lasting.Calls.{IsFair}
use golang_time_tracker.Server.Runs.{Holds, perform-Holds}
use golang_time_tracker.Server.Keeping.{KeepsCall, tick_stays, Runs-Holds}

-- Two ticks of a table in order.
Memᴰ-le : (a t : ℤ) (rows : List TickRow) → Ascends a (times rows) → Memᴰ t (times rows) → a ≤ℤ t
Memᴰ-le a t [] h m = elim m [ ]
Memᴰ-le a t (row ∷ rows) h (Memᴰ.head e) = rw e h.0
Memᴰ-le a t (row ∷ rows) h (Memᴰ.tail m) = omega (arith, Memᴰ-le row.time t rows h.2 m, h.0)

module _ (gap now x t : ℤ) where
  beyond :
      (row : TickRow) (rows : List TickRow)
      → Memᴰ t (times (row ∷ rows))
      → row.time <ℤ t
      → Memᴰ t (times rows)
  beyond row rows (Memᴰ.head e) lt = absurd (ground arith)
  beyond row rows (Memᴰ.tail m) lt = m

  -- Where `t` is a tick behind `a`, by no more than `gap`, all moments between them are worked.
  worked_from-upto :
      (a : ℤ) (rows : List TickRow)
      → Ascends a (times rows)
      → Memᴰ t (times rows)
      → a ≤ℤ x
      → x <ℤ t
      → t -ℤ a ≤ℤ gap
      → worked_from gap now x a rows ≡ true
  worked_from-upto a [] h m le lt near = elim m [ ]
  worked_from-upto a (row ∷ rows) h m le lt near =
      let same : row.time ≤ℤ row.time = omega arith in
      let upto : row.time ≤ℤ t = Memᴰ-le row.time t (row ∷ rows) (same, h.1, h.2) m in
      elim (Bool-cases (ltb_ℤ x row.time)) [
        | inl e ↦ let near_row : row.time -ℤ a ≤ℤ gap = grind int_laws in ground arith
        | inr e ↦
            let near_rest : t -ℤ row.time ≤ℤ gap = grind int_laws in
            let rest =
              worked_from-upto row.time rows h.2 (beyond row rows m (ground arith)) (ground arith)
                lt near_rest in
            ground (arith, rest)
      ]

  worked_from-two :
      (a u : ℤ) (rows : List TickRow)
      → Ascends a (times rows)
      → Memᴰ u (times rows)
      → Memᴰ t (times rows)
      → u ≤ℤ x
      → x <ℤ t
      → t -ℤ u ≤ℤ gap
      → worked_from gap now x a rows ≡ true
  worked_from-two a u [] h mu m le lt near = elim mu [ ]
  worked_from-two a u (row ∷ rows) h (Memᴰ.head e) m le lt near =
      let rest =
        worked_from-upto row.time rows h.2 (beyond row rows m (ground arith)) (ground arith) lt
          (rw e at near) in
      ground (arith, rest)
  worked_from-two a u (row ∷ rows) h (Memᴰ.tail mu) m le lt near =
      let before : row.time ≤ℤ u = Memᴰ-le row.time u rows h.2 mu in
      let rest =
        worked_from-two row.time u rows h.2 mu (beyond row rows m (ground arith)) le lt near in
      ground (arith, rest)

  -- Between two ticks of a table at most `gap` apart there is work.
  worked-two :
      (u : ℤ) (rows : List TickRow)
      → Ascends (pos 0) (times rows)
      → Memᴰ u (times rows)
      → Memᴰ t (times rows)
      → u ≤ℤ x
      → x <ℤ t
      → t -ℤ u ≤ℤ gap
      → worked gap now x rows ≡ true
  worked-two u [] h mu m le lt near = elim mu [ ]
  worked-two u (row ∷ rows) h (Memᴰ.head e) m le lt near =
      worked_from-upto row.time rows h.2 (beyond row rows m (ground arith)) (ground arith) lt
        (rw e at near)
  worked-two u (row ∷ rows) h (Memᴰ.tail mu) m le lt near =
      let before : row.time ≤ℤ u = Memᴰ-le row.time u rows h.2 mu in
      worked_from-two row.time u rows h.2 mu (beyond row rows m (ground arith)) le lt near

module _ (D : Database) (R : Rules D) where
  -- Calls other than Clear that rely on what they may.
  abbrev pub Goes : Server D → Server D → Type 0
  Goes = Runs D (λ u c. IsFair D R u c × KeepsCall c)

  -- The tick of a successful call, in the table as it is later.
  row_stays :
      (req : TickRequest) (t : ℤ) (resp : TickResponse) (s s' u : Server D)
      → Holds D R s
      → IsVerbatim req.label
      → tick D (some req) t s ≡ returned (s', ok resp)
      → Goes s' u
      → Memᴰ t (times (R.ticks_of u.db))
  row_stays req t resp s s' u v n e runs =
      R.tick_row u.db t req.label (tick_stays D R req t resp s s' u v n e runs)

  -- From a server as it should be, after two successful Ticks at most `max_event_gap` apart, with
  -- any calls but Clear and any rounds of goroutines that return between and behind them,
  -- GetIntervals returns intervals that hold every moment of the request between the two, or the
  -- error of its query. The labels of the ticks are of plain printable characters and the calls
  -- between are as IsFair says: labels and directories of such characters, times far from
  -- overflowing, rounds of syncWatchesLoop after fewer than two errors, rounds of recordWritesInDB
  -- of a watch that exists and can begin its transaction. At the call of GetIntervals dbMu is free,
  -- now is `max_event_gap` or more, the ticks of the table, listed in the order of their times, lie
  -- more than `max_event_gap` after the epoch and none after now, no time overflows, and the query,
  -- which has no ORDER BY, reads its rows in ascending order.
  pub ticks_answered :
      (first second : TickRequest) (t u : ℤ) (r r' : TickResponse) (s s1 s2 s3 s4 : Server D)
      (req : GetIntervalsRequest) (now : ℤ)
      → IsServer D R s
      → IsVerbatim first.label
      → IsVerbatim second.label
      → tick D (some first) t s ≡ returned (s1, ok r)
      → Goes s1 s2
      → tick D (some second) u s2 ≡ returned (s3, ok r')
      → Goes s3 s4
      → u -ℤ t ≤ℤ s4.max_event_gap
      → s4.db_locked ≡ false
      → AreTicks s4.max_event_gap now (R.ticks_of s4.db)
      → s4.max_event_gap ≤ℤ now
      → IsTime req.start
      → IsTime req.end
      → ReadsInOrder D R req s4
      → ((resp : GetIntervalsResponse) × (get_intervals D req now s4 ≡ returned (ok resp))
          × ((x : ℤ)
              → req.start ≤ℤ x
              → x <ℤ req.end
              → t ≤ℤ x
              → x <ℤ u
              → covers x resp.intervals ≡ true))
        ⊎ (get_intervals D req now s4 ≡ returned (err db_error))
  unfolding perform
  ticks_answered first second t u r r' s s1 s2 s3 s4 req now v n n' e runs e' runs' near free ticks
        past st en in_order =
      elim (get_intervals-Answers D R req now s4 free ticks past st en in_order) [
        | inl (resp, p, a) ↦ inl (
          resp,
          p,
          λ x l g lt gt.
              a.covered x
              ∙ (ground (
                arith,
                worked-two s4.max_event_gap now x u t (R.ticks_of s4.db) ticks.ascend one two lt gt
                    near,
              )),
        )
        | inr p ↦ inr p
      ]
    where
      after : Holds D R s2
      after =
          Runs-Holds D R s1 s2
            (perform-Holds D R (call_tick (some first) t) s s1 (inl v) n (ap left e)) runs

      two : Memᴰ u (times (R.ticks_of s4.db))
      two = row_stays second u r' s2 s3 s4 after n' e' runs'

      one : Memᴰ t (times (R.ticks_of s4.db))
      one = row_stays first t r s s1 s4 (inl v) n e (
          Runs-trans D _ s1 s3 s4 (goes (call_tick (some second) u) runs (n', n') (ap left e'))
            runs')
