-- ===== src/Server/Intervals/Report.antt =====
-- What a caller of GetIntervals (watch_daemon/api_impl.go) can rely on, and where its end gap is
-- not what client/api.go says of it.
use mathlib.Core.List.{append-nil}
use golang_time_tracker.Base.{
  ◌≡◌, refl, ◌∙◌, Bool, true, false, ◌&&◌, List, [], ◌∷◌, ◌++◌, arith, All, if◌then◌else◌,
  Bool-cases, inl, inr,
}
use golang_time_tracker.Base.Int.{ℤ, pos, ltb_ℤ, leb_ℤ, sub64, IsTime, ◌≤ℤ◌, ◌<ℤ◌}
use golang_time_tracker.Base.Halt.{done}
use golang_time_tracker.Database.{TickRow}
use golang_time_tracker.Client.{GetIntervalsRequest, GetIntervalsResponse, Interval}
use golang_time_tracker.Collector.{new_collector, finish, add_all}
use golang_time_tracker.Collector.Coverage.{covers, works, works_from-le, Ascends, collect-covers}
use golang_time_tracker.Collector.Spacing.{IsTimeline, collect-IsTimeline}
use golang_time_tracker.Server.Intervals.{intervals_of}
use golang_time_tracker.Server.Intervals.Tallying.{times, last_time, is_open, counted}
use golang_time_tracker.Server.Intervals.Union.{intervals_of-union}

-- The rows as SQLite reads them off the primary key: the times do not fall, and lie more than the
-- maximal gap after the epoch and not in the future.
pub record AreTicks (gap now : ℤ) (rows : List TickRow) : Type 0 where
  pub ascend : Ascends (pos 0) (times rows)
  pub after_epoch : All (λ row. gap <ℤ row.time) rows
  pub no_future : last_time (pos 0) rows ≤ℤ now
  pub now_time : IsTime now
  pub gap_time : IsTime gap
  pub gap_nonneg : pos 0 ≤ℤ gap

Ascends-snoc :
    (a now : ℤ) (rows : List TickRow)
    → Ascends a (times rows)
    → last_time a rows ≤ℤ now
    → IsTime now
    → Ascends a (times rows ++ now ∷ [])
Ascends-snoc a now [] h le ht = (le, ht, tt)
Ascends-snoc a now (row ∷ rows) h le ht = (h.0, h.1, Ascends-snoc row.time now rows h.2 le ht)

Ascends-All :
    (a : ℤ) (rows : List TickRow) → Ascends a (times rows) → All (λ row. IsTime row.time) rows
Ascends-All a [] h = tt
Ascends-All a (row ∷ rows) h = (h.1, Ascends-All row.time rows h.2)

counted-Ascends :
    (req : GetIntervalsRequest) (gap now : ℤ) (rows : List TickRow)
    → AreTicks gap now rows
    → Ascends (pos 0) (counted req gap now rows)
counted-Ascends req gap now rows v = elim (Bool-cases (is_open req gap now rows)) [
  | inl near ↦ rw near (Ascends-snoc (pos 0) now rows v.ascend v.no_future v.now_time)
  | inr far ↦ rw (far, append-nil) v.ascend
]

-- For one tick or more in ascending order, all more than `gap` after the epoch and none after now,
-- with no time near an overflow, GetIntervals returns non-empty intervals within the request, each
-- more than `gap` seconds before the next, which cover exactly the moments of [start, end) between
-- two neighbouring ticks at most `gap` apart, the present moment being one more tick while the last
-- interval is open.
pub intervals_of-covers :
    (req : GetIntervalsRequest) (gap now : ℤ) (row : TickRow) (rows : List TickRow)
    → AreTicks gap now (row ∷ rows)
    → (resp : GetIntervalsResponse) × (intervals_of req gap now (row ∷ rows) ≡ done resp)
      × IsTimeline gap req.start req.end resp.intervals
      × ((x : ℤ)
          → covers x resp.intervals
            ≡ leb_ℤ req.start x
              && ltb_ℤ x req.end
              && works gap x (counted req gap now (row ∷ rows)))
intervals_of-covers req gap now row rows v =
    let h = counted-Ascends req gap now (row ∷ rows) v in
    (
      _,
      intervals_of-union req gap now (row ∷ rows) v.gap_nonneg v.now_time
          (Ascends-All (pos 0) (row ∷ rows) v.ascend),
      collect-IsTimeline req.start req.end gap now (counted req gap now (row ∷ rows)) v.gap_nonneg
          h,
      λ x.
          collect-covers req.start req.end gap now row.time
            (times rows ++ (if is_open req gap now (row ∷ rows) then now ∷ [] else [])) x
            v.gap_nonneg v.after_epoch.0 h.1 h.2,
    )

-- A timeline that covers no moment is empty.
covers-none :
    (gap l r : ℤ) (ivs : List Interval)
    → IsTimeline gap l r ivs
    → ((x : ℤ) → covers x ivs ≡ false)
    → ivs ≡ []
covers-none gap l r [] v h = refl
covers-none gap l r (iv ∷ ivs) v h = absurd (ground (arith, h iv.start, v.within.0))

-- When all ticks are after the end of the request and the last is less than `gap` ago, GetIntervals
-- returns no interval, and still an end gap, the time since that tick.
pub end_gap_without_interval :
    (req : GetIntervalsRequest) (gap now : ℤ) (row : TickRow) (rows : List TickRow)
    → AreTicks gap now (row ∷ rows)
    → req.end <ℤ row.time
    → sub64 now (last_time row.time rows) <ℤ gap
    → intervals_of req gap now (row ∷ rows)
      ≡ done (record { intervals = []; end_gap = sub64 now (last_time row.time rows) })
end_gap_without_interval req gap now row rows v late near =
    let later : List ℤ =
      times rows ++ (if is_open req gap now (row ∷ rows) then now ∷ [] else []) in
    let h : Ascends (pos 0) (row.time ∷ later) = counted-Ascends req gap now (row ∷ rows) v in
    let still_open : is_open req gap now (row ∷ rows) ≡ true = ground arith in
    let empty : finish (add_all (new_collector req.start req.end gap now) (row.time ∷ later)) ≡ [] =
      covers-none gap req.start req.end _
        (collect-IsTimeline req.start req.end gap now (row.time ∷ later) v.gap_nonneg h)
        λ x.
          collect-covers req.start req.end gap now row.time later x v.gap_nonneg v.after_epoch.0 h.1
            h.2
          ∙ outside req gap row.time later x late h.2 in
    intervals_of-union req gap now (row ∷ rows) v.gap_nonneg v.now_time
      (Ascends-All (pos 0) (row ∷ rows) v.ascend)
    ∙ (λ i. done (record {
      intervals = empty i;
      end_gap = open_gap {g = sub64 now (last_time row.time rows)} still_open i;
    }))
  where
    outside :
        (req : GetIntervalsRequest) (gap t : ℤ) (later : List ℤ) (x : ℤ)
        → req.end <ℤ t
        → Ascends t later
        → (leb_ℤ req.start x && ltb_ℤ x req.end && works gap x (t ∷ later)) ≡ false
    outside req gap t later x late h = ground (arith, works_from-le gap x t later h)

    open_gap : {b : Bool} {g : ℤ} → b ≡ true → (if b then g else pos 0) ≡ g
    open_gap e = rw e
