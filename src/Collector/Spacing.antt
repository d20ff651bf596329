-- ===== src/Collector/Spacing.antt =====
-- The shape of the intervals of watch_daemon/interval.go.
use golang_time_tracker.Base.{◌≡◌, refl, ◌∙◌, List, [], ◌∷◌, ◌++◌, arith, All, inl, inr, Bool-cases}
use golang_time_tracker.Base.Int.{ℤ, pos, leb_ℤ, ◌+ℤ◌, ◌≤ℤ◌, ◌<ℤ◌, int_laws}
use golang_time_tracker.Client.{Interval}
use golang_time_tracker.Collector.{
  Collector, new_collector, min, max, add_interval, add, finish, add_all,
}
use golang_time_tracker.Collector.Coverage.{
  Ascends, Before, add-Before, AddCase, past, extends, breaks, add-AddCase,
}

-- A non-empty interval within [l, r].
abbrev pub Within : ℤ → ℤ → Interval → Type 0
Within l r iv = (l ≤ℤ iv.start) × (iv.start <ℤ iv.end) × (iv.end ≤ℤ r)

-- Each interval ends more than `gap` before those behind it start.
abbrev pub Spaced : ℤ → List Interval → Type 0
Spaced gap [] = Unit {0}
Spaced gap (iv ∷ ivs) = All (λ later. iv.end +ℤ gap <ℤ later.start) ivs × Spaced gap ivs

All-snoc :
    (P : Interval → Type 0) (ivs : List Interval) (iv : Interval)
    → All P ivs
    → P iv
    → All P (ivs ++ iv ∷ [])
All-snoc P [] iv h k = (k, tt)
All-snoc P (i ∷ ivs) iv h k = (h.0, All-snoc P ivs iv h.1 k)

All-weaken :
    (P Q : Interval → Type 0) (ivs : List Interval)
    → ((iv : Interval) → P iv → Q iv)
    → All P ivs
    → All Q ivs
All-weaken P Q [] f h = tt
All-weaken P Q (i ∷ ivs) f h = (f i h.0, All-weaken P Q ivs f h.1)

Spaced-snoc :
    (gap : ℤ) (ivs : List Interval) (iv : Interval)
    → Spaced gap ivs
    → All (λ i. i.end +ℤ gap <ℤ iv.start) ivs
    → Spaced gap (ivs ++ iv ∷ [])
Spaced-snoc gap [] iv s h = (tt, tt)
Spaced-snoc gap (i ∷ ivs) iv s h =
    (All-snoc (λ later. i.end +ℤ gap <ℤ later.start) ivs iv s.0 h.0, Spaced-snoc gap ivs iv s.1 h.1)

-- What holds of a collector between calls.
record IsSchedule (c : Collector) : Type 0 where
  pub within : All (Within c.l c.r) c.intervals
  pub spaced : Spaced c.max_event_gap c.intervals
  pub behind : All (λ iv. iv.end +ℤ c.max_event_gap <ℤ c.start) c.intervals

-- What holds of the intervals with the current one closed.
record IsClosed (c : Collector) (ivs : List Interval) : Type 0 where
  within : All (Within c.l c.r) ivs
  spaced : Spaced c.max_event_gap ivs
  behind : All (λ iv. iv.end ≤ℤ c.end) ivs

-- Closing the current interval keeps nothing of it, or appends its part within the bounds.
data Closes (c : Collector) (ivs : List Interval) : Type 0 where
  drops : ivs ≡ c.intervals → Closes c ivs
  appends :
      (iv : Interval)
      → Within c.l c.r iv
      → c.start ≤ℤ iv.start
      → iv.end ≤ℤ c.end
      → ivs ≡ c.intervals ++ iv ∷ []
      → Closes c ivs

add_interval-Closes : (c : Collector) → Closes c (add_interval c).intervals
add_interval-Closes c = elim (Bool-cases (leb_ℤ (min c.r c.end) (max c.l c.start))) [
  | inl empty ↦ drops (unfold add_interval in rw empty)
  | inr some_time ↦
      appends (record { start = max c.l c.start; end = min c.r c.end; label = c.label })
        (unfold min max in ground arith) (unfold max in ground arith) (unfold min in ground arith)
        (unfold add_interval in rw some_time)
]

Closes-IsClosed :
    (c : Collector) (ivs : List Interval)
    → pos 0 ≤ℤ c.max_event_gap
    → c.start ≤ℤ c.end
    → IsSchedule c
    → Closes c ivs
    → IsClosed c ivs
Closes-IsClosed c ivs hg ho v (drops e) = rw e (record {
  within = v.within;
  spaced = v.spaced;
  behind = All-weaken _ _ c.intervals (λ iv h. omega (int_laws)) v.behind;
})
Closes-IsClosed c ivs hg ho v (appends iv hw hs he e) = rw e (record {
  within = All-snoc (Within c.l c.r) c.intervals iv v.within hw;
  spaced =
      Spaced-snoc c.max_event_gap c.intervals iv v.spaced
        (All-weaken _ _ c.intervals (λ i h. omega (int_laws)) v.behind);
  behind =
      All-snoc _ c.intervals iv (All-weaken _ _ c.intervals (λ i h. omega (int_laws)) v.behind) he;
})

add-IsSchedule :
    (c c' : Collector) (t : ℤ) (ts : List ℤ)
    → pos 0 ≤ℤ c.max_event_gap
    → Before c (t ∷ ts)
    → IsSchedule c
    → AddCase c t c'
    → IsSchedule c' × (c'.max_event_gap ≡ c.max_event_gap) × (c'.l ≡ c.l) × (c'.r ≡ c.r)
add-IsSchedule c c' t ts hg b v (past h e) = rw e (v, refl, refl, refl)
add-IsSchedule c c' t ts hg b v (extends h k e) =
    rw e (record { within = v.within; spaced = v.spaced; behind = v.behind }, refl, refl, refl)
add-IsSchedule c c' t ts hg b v (breaks h k e) =
    let closed = Closes-IsClosed c _ hg b.ordered v (add_interval-Closes c) in
    rw e (
      record {
        within = closed.within;
        spaced = closed.spaced;
        behind = All-weaken _ _ (add_interval c).intervals (λ iv p. omega int_laws) closed.behind;
      },
      refl,
      refl,
      refl,
    )

-- The intervals of a finished collector: non-empty, within the bounds, and apart.
pub record IsTimeline (gap l r : ℤ) (ivs : List Interval) : Type 0 where
  pub within : All (Within l r) ivs
  pub spaced : Spaced gap ivs

finish_lem : (c : Collector) → finish c ≡ (add_interval c).intervals
unfolding finish
finish_lem c = refl

add_all-IsTimeline :
    (gap l r : ℤ) (c : Collector) (ts : List ℤ)
    → pos 0 ≤ℤ gap
    → Before c ts
    → IsSchedule c
    → (c.max_event_gap ≡ gap) × (c.l ≡ l) × (c.r ≡ r)
    → IsTimeline gap l r (finish (add_all c ts))
unfolding add_all
add_all-IsTimeline gap l r c [] hg b v (eg, el, er) =
    let closed =
      Closes-IsClosed c (add_interval c).intervals (rw eg hg) b.ordered v (add_interval-Closes c) in
    rw (← eg, ← el, ← er, finish_lem c) (record { within = closed.within; spaced = closed.spaced })
add_all-IsTimeline gap l r c (t ∷ ts) hg b v (eg, el, er) =
    let (v', eg', el', er') =
      add-IsSchedule c (add c t).0 t ts (rw eg hg) b v (add-AddCase c t b.later.1 b.end_time) in
    add_all-IsTimeline gap l r (add c t).0 ts hg (add-Before c t ts b) v'
      (eg' ∙ eg, el' ∙ el, er' ∙ er)

-- When ticks that do not fall and do not overflow are added to a new collector, the finished
-- intervals are not empty, lie within [start, end], and each ends more than `gap` seconds before
-- those behind it start.
pub collect-IsTimeline :
    (start end gap now : ℤ) (ts : List ℤ)
    → pos 0 ≤ℤ gap
    → Ascends (pos 0) ts
    → IsTimeline gap start end (finish (add_all (new_collector start end gap now) ts))
unfolding new_collector
collect-IsTimeline start end gap now ts hg h =
    add_all-IsTimeline gap start end (new_collector start end gap now) ts hg
      (record { ordered = omega arith; end_time = omega arith; later = h })
      (record { within = tt; spaced = tt; behind = tt }) (refl, refl, refl)
