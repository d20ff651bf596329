-- ===== src/Server/Answering.antt =====
-- What GetIntervals (watch_daemon/api_impl.go) answers, in terms of all the ticks of the database.
use golang_time_tracker.Base.{
  ◌≡◌, refl, sym, some, ap, ◌∙◌, ◌⊎◌, false, ◌&&◌, List, [], ◌∷◌, arith, All, Bool-cases,
  Option-cases, inl, inr,
}
use golang_time_tracker.Base.Int.{
  ℤ, pos, leb_ℤ, ltb_ℤ, sub64, add64, sub64-eq, add64-eq, IsTime, int_laws, ◌≤ℤ◌, ◌<ℤ◌,
}
use golang_time_tracker.Base.Halt.{done}
use golang_time_tracker.Client.{GetIntervalsRequest, GetIntervalsResponse}
use golang_time_tracker.Database.{Database, TickRow}
use golang_time_tracker.Database.Rules.{Rules, ticks_between}
use golang_time_tracker.Collector.{new_collector, finish, add_all}
use golang_time_tracker.Collector.Coverage.{covers, Ascends, covers-add_interval, Ascends-weaken}
use golang_time_tracker.Collector.Spacing.{IsTimeline, collect-IsTimeline}
use golang_time_tracker.Server.State.{Server, returned, ok, err, db_error}
use golang_time_tracker.Server.Handlers.{lock_free, get_intervals}
use golang_time_tracker.Server.Intervals.{intervals_of}
use golang_time_tracker.Server.Intervals.Tallying.{times, last_time}
use golang_time_tracker.Server.Intervals.Union.{intervals_of-union}
use golang_time_tracker.Server.Intervals.Report.{AreTicks, intervals_of-covers}
use golang_time_tracker.Server.Intervals.Order.{read-times, AreTicks-times, worked-times}
use golang_time_tracker.Server.Intervals.Window.{worked, worked-ticks_between, works-counted}

-- The intervals are a timeline within the request, and hold the moments of it that are worked.
pub record Answers (req : GetIntervalsRequest) (gap now : ℤ) (rows : List TickRow)
    (resp : GetIntervalsResponse) : Type 0 where
  pub timeline : IsTimeline gap req.start req.end resp.intervals
  pub covered :
      (x : ℤ)
      → covers x resp.intervals ≡ leb_ℤ req.start x && ltb_ℤ x req.end && worked gap now x rows

intervals_of-Answers :
    (req : GetIntervalsRequest) (gap now : ℤ) (rows : List TickRow)
    → AreTicks gap now rows
    → gap ≤ℤ now
    → (resp : GetIntervalsResponse) × (intervals_of req gap now rows ≡ done resp)
      × Answers req gap now rows resp
unfolding new_collector finish add_all
intervals_of-Answers req gap now (row ∷ rows) v past =
    let (resp, e, line, cs) = intervals_of-covers req gap now row rows v in
    (
      resp,
      e,
      record {
        timeline = line;
        covered = λ x.
            cs x
            ∙ ap (λ w. leb_ℤ req.start x && ltb_ℤ x req.end && w)
                (works-counted req gap now x (row ∷ rows) v.now_time v.ascend);
      },
    )
intervals_of-Answers req gap now [] v past =
    let zero_time : IsTime (pos 0) = (omega arith, omega arith) in
    let over : ltb_ℤ (sub64 now (pos 0)) gap ≡ false =
      rw (sub64-eq now (pos 0) v.now_time zero_time) (grind int_laws) in
    let e = intervals_of-union req gap now [] v.gap_nonneg v.now_time tt in
    (
      _,
      e,
      record {
        timeline = rw over (collect-IsTimeline req.start req.end gap now [] v.gap_nonneg tt);
        covered = λ x. rw over (nothing x);
      },
    )
  where
    nothing :
        (x : ℤ)
        → covers x (finish (add_all (new_collector req.start req.end gap now) []))
          ≡ leb_ℤ req.start x && ltb_ℤ x req.end && false
    nothing x = covers-add_interval x (new_collector req.start req.end gap now) ∙ (ground arith)

pub Ascends-between :
    (lo hi a : ℤ) (rows : List TickRow)
    → Ascends a (times rows)
    → Ascends a (times (ticks_between lo hi rows))
unfolding ticks_between
Ascends-between lo hi a [] h = tt
Ascends-between lo hi a (row ∷ rows) h =
    elim (Bool-cases (leb_ℤ lo row.time && leb_ℤ row.time hi)) [
      | inl e ↦ rw (ticks_between, e) (h.0, h.1, Ascends-between lo hi row.time rows h.2)
      | inr e ↦
          rw (ticks_between, e)
            (Ascends-between lo hi a rows (Ascends-weaken a row.time (times rows) h.0 h.2))
    ]

last_time-between :
    (lo hi a : ℤ) (rows : List TickRow)
    → Ascends a (times rows)
    → last_time a (ticks_between lo hi rows) ≤ℤ last_time a rows
unfolding ticks_between
last_time-between lo hi a [] h = omega arith
last_time-between lo hi a (row ∷ rows) h =
    elim (Bool-cases (leb_ℤ lo row.time && leb_ℤ row.time hi)) [
      | inl e ↦ rw (ticks_between, e) (last_time-between lo hi row.time rows h.2)
      | inr e ↦
          let rest =
            last_time-between lo hi a rows (Ascends-weaken a row.time (times rows) h.0 h.2) in
          rw (ticks_between, e) (omega (arith, rest, last_time-mono rows))
    ]
  where
    last_time-mono : (rows : List TickRow) → last_time a rows ≤ℤ last_time row.time rows
    last_time-mono [] = h.0
    last_time-mono (r ∷ rows) = omega arith

All-between :
    (gap lo hi : ℤ) (rows : List TickRow)
    → All (λ row. gap <ℤ row.time) rows
    → All (λ row. gap <ℤ row.time) (ticks_between lo hi rows)
unfolding ticks_between
All-between gap lo hi [] h = tt
All-between gap lo hi (row ∷ rows) h = elim (Bool-cases (leb_ℤ lo row.time && leb_ℤ row.time hi)) [
  | inl e ↦ rw (ticks_between, e) (h.0, All-between gap lo hi rows h.1)
  | inr e ↦ rw (ticks_between, e) (All-between gap lo hi rows h.1)
]

AreTicks-between :
    (gap now lo hi : ℤ) (rows : List TickRow)
    → AreTicks gap now rows
    → AreTicks gap now (ticks_between lo hi rows)
AreTicks-between gap now lo hi rows v = record {
  ascend = Ascends-between lo hi (pos 0) rows v.ascend;
  after_epoch = All-between gap lo hi rows v.after_epoch;
  no_future = omega (arith, last_time-between lo hi (pos 0) rows v.ascend, v.no_future);
  now_time = v.now_time;
  gap_time = v.gap_time;
  gap_nonneg = v.gap_nonneg;
}

-- An answer from the ticks of the query is one from all ticks.
Answers-between :
    (req : GetIntervalsRequest) (gap now : ℤ) (rows : List TickRow) (resp : GetIntervalsResponse)
    → AreTicks gap now rows
    → IsTime req.start
    → IsTime req.end
    → Answers req gap now (ticks_between (sub64 req.start gap) (add64 req.end gap) rows) resp
    → Answers req gap now rows resp
Answers-between req gap now rows resp v s e a = record { timeline = a.timeline; covered = whole }
  where
    whole :
        (x : ℤ)
        → covers x resp.intervals ≡ leb_ℤ req.start x && ltb_ℤ x req.end && worked gap now x rows
    whole x = a.covered x ∙ elim (Bool-cases (leb_ℤ req.start x && ltb_ℤ x req.end)) [
      | inl i ↦ rw i (
          worked-ticks_between gap now x (sub64 req.start gap) (add64 req.end gap) rows v.ascend
            (rw (sub64-eq req.start gap s v.gap_time) (grind int_laws))
            (rw (add64-eq req.end gap e v.gap_time) (grind int_laws)) v.gap_nonneg v.no_future)
      | inr o ↦ rw o refl
    ]

module _ (D : Database) (R : Rules D) where
  -- The query of GetIntervals, which has no ORDER BY, reads the ticks in the order of their times.
  abbrev pub ReadsInOrder : GetIntervalsRequest → Server D → Type 0
  ReadsInOrder req s =
      (rows : List TickRow)
      → D.select_ticks (sub64 req.start s.max_event_gap) (add64 req.end s.max_event_gap) s.db
        ≡ some rows
      → Ascends (pos 0) (times rows)

  -- With dbMu free, GetIntervals returns the error of the query, or a timeline within the request
  -- that holds just the moments of it between two neighbouring ticks of the whole table at most
  -- `max_event_gap` apart, or between the last tick and now, if that is less than `max_event_gap`
  -- ago; if now is `max_event_gap` or more, all ticks of the table, listed in the order of their
  -- times, lie more than that after the epoch and none after now, no time overflows, and the query
  -- reads its rows in ascending order.
  pub get_intervals-Answers :
      (req : GetIntervalsRequest) (now : ℤ) (s : Server D)
      → s.db_locked ≡ false
      → AreTicks s.max_event_gap now (R.ticks_of s.db)
      → s.max_event_gap ≤ℤ now
      → IsTime req.start
      → IsTime req.end
      → ReadsInOrder req s
      → ((resp : GetIntervalsResponse) × (get_intervals D req now s ≡ returned (ok resp))
          × Answers req s.max_event_gap now (R.ticks_of s.db) resp)
        ⊎ (get_intervals D req now s ≡ returned (err db_error))
  unfolding get_intervals
  get_intervals-Answers req now s free v past st en in_order =
      elim (Option-cases (D.select_ticks lo hi s.db)) [
        | inl e ↦ inr (lock_free D s _ free ∙ (rw e))
        | inr (rows, e) ↦
            let ranged = AreTicks-between s.max_event_gap now lo hi (R.ticks_of s.db) v in
            let same =
              read-times s.max_event_gap now rows (ticks_between lo hi (R.ticks_of s.db))
                (in_order rows e) ranged (R.ranged lo hi s.db rows e) in
            let (resp, p, a) =
              intervals_of-Answers req s.max_event_gap now rows
                (AreTicks-times s.max_event_gap now _ rows (sym same) ranged) past in
            inl (
              resp,
              lock_free D s _ free ∙ (rw (e, p)),
              Answers-between req s.max_event_gap now (R.ticks_of s.db) resp v st en (record {
                timeline = a.timeline;
                covered = λ x.
                    a.covered x
                    ∙ ap (λ w. leb_ℤ req.start x && ltb_ℤ x req.end && w)
                        (worked-times s.max_event_gap now x rows
                          (ticks_between lo hi (R.ticks_of s.db)) same);
              }),
            )
      ]
    where
      lo : ℤ
      lo = sub64 req.start s.max_event_gap

      hi : ℤ
      hi = add64 req.end s.max_event_gap
