-- ===== src/Collector/Coverage.antt =====
-- What the intervals of watch_daemon/interval.go cover, moment by moment.
use golang_time_tracker.Base.{
  ◌≡◌, ◌∙◌, Bool, true, false, ◌&&◌, ◌||◌, List, [], ◌∷◌, ◌++◌, arith, Bool-cases, inl, inr,
}
use golang_time_tracker.Base.Int.{
  ℤ, pos, ltb_ℤ, leb_ℤ, ◌-ℤ◌, ◌≤ℤ◌, ◌<ℤ◌, IsTime, sub64-eq, -ℤ_parts,
}
use golang_time_tracker.Client.{Interval}
use golang_time_tracker.Collector.{
  Collector, new_collector, min, max, add_interval, add, finish, add_all,
}

-- The moment `x` lies in one of the intervals. An interval holds its start and not its end.
abbrev pub covers : ℤ → List Interval → Bool
covers x [] = false
covers x (iv ∷ ivs) = (leb_ℤ iv.start x && ltb_ℤ x iv.end) || covers x ivs

-- The moment `x` lies between two neighbours of `a ∷ ts` that are at most `gap` apart.
abbrev pub works_from : ℤ → ℤ → ℤ → List ℤ → Bool
works_from gap x a [] = false
works_from gap x a (b ∷ ts) =
    (leb_ℤ a x && ltb_ℤ x b && leb_ℤ (b -ℤ a) gap) || works_from gap x b ts

abbrev pub works : ℤ → ℤ → List ℤ → Bool
works gap x [] = false
works gap x (a ∷ ts) = works_from gap x a ts

-- The times of `ts` are not before `a`, do not fall, and do not overflow.
abbrev pub Ascends : ℤ → List ℤ → Type 0
Ascends a [] = Unit {0}
Ascends a (b ∷ ts) = (a ≤ℤ b) × IsTime b × Ascends b ts

abbrev inside : Collector → ℤ → Bool
inside c x = leb_ℤ c.l x && ltb_ℤ x c.r

abbrev current : Collector → ℤ → Bool
current c x = leb_ℤ c.start x && ltb_ℤ x c.end

covers-append :
    (x : ℤ) (ivs : List Interval) (iv : Interval)
    → covers x (ivs ++ iv ∷ []) ≡ covers x ivs || (leb_ℤ iv.start x && ltb_ℤ x iv.end)
covers-append x [] iv = ground arith
covers-append x (i ∷ ivs) iv = ground (arith, covers-append x ivs iv)

pub covers-add_interval :
    (x : ℤ) (c : Collector)
    → covers x (add_interval c).intervals ≡ covers x c.intervals || (inside c x && current c x)
unfolding add_interval
covers-add_interval x c = ground (
  arith,
  covers-append x c.intervals
      (record { start = max c.l c.start; end = min c.r c.end; label = c.label }),
)

pub works_from-le :
    (gap x a : ℤ) (ts : List ℤ) → Ascends a ts → works_from gap x a ts ≡ true → a ≤ℤ x
works_from-le gap x a [] h w = cc
works_from-le gap x a (b ∷ ts) h w = ground (arith, works_from-le gap x b ts h.2)

-- A collector whose current interval is in order and ends before the ticks `ts`.
pub record Before (c : Collector) (ts : List ℤ) : Type 0 where
  pub ordered : c.start ≤ℤ c.end
  pub end_time : IsTime c.end
  pub later : Ascends c.end ts

pub Ascends-weaken : (a b : ℤ) (ts : List ℤ) → a ≤ℤ b → Ascends b ts → Ascends a ts
Ascends-weaken a b [] h s = tt
Ascends-weaken a b (t ∷ ts) h s = (omega arith, s.1, s.2)

pub add-Before : (c : Collector) (t : ℤ) (ts : List ℤ) → Before c (t ∷ ts) → Before (add c t).0 ts
unfolding add
add-Before c t ts v = ground (arith, Ascends-weaken c.end t ts v.later.0 v.later.2)

-- What a collector will have covered once `ts` are added.
abbrev covered : ℤ → Collector → List ℤ → Bool
covered x c ts =
    covers x c.intervals || (inside c x && (current c x || works_from c.max_event_gap x c.end ts))

-- The three branches of Add.
pub data AddCase (c : Collector) (t : ℤ) (c' : Collector) : Type 0 where
  past : c.r <ℤ c.start → c' ≡ c → AddCase c t c'
  extends :
      c.start ≤ℤ c.r → t -ℤ c.end ≤ℤ c.max_event_gap → c' ≡ record c { end = t } → AddCase c t c'
  breaks :
      c.start ≤ℤ c.r
      → c.max_event_gap <ℤ t -ℤ c.end
      → c' ≡ record c { start = t; end = t; intervals = (add_interval c).intervals }
      → AddCase c t c'

add_interval-eq :
    (c : Collector) → add_interval c ≡ record c { intervals = (add_interval c).intervals }
unfolding add_interval
add_interval-eq c = ground arith

pub add-AddCase : (c : Collector) (t : ℤ) → IsTime t → IsTime c.end → AddCase c t (add c t).0
add-AddCase c t ht hc = elim (Bool-cases (ltb_ℤ c.r c.start)) [
  | inl over ↦ past (ground arith) (unfold add in rw over)
  | inr on ↦ elim (Bool-cases (leb_ℤ (t -ℤ c.end) c.max_event_gap)) [
    | inl near ↦
        extends (ground arith) (ground arith) (unfold add in rw (on, sub64-eq t c.end ht hc, near))
    | inr far ↦
        breaks (ground arith) (ground arith)
          (unfold add in rw (on, sub64-eq t c.end ht hc, far) (rw (add_interval-eq c)))
  ]
]

covered-AddCase :
    (x : ℤ) (c c' : Collector) (t : ℤ) (ts : List ℤ)
    → Before c (t ∷ ts)
    → AddCase c t c'
    → covered x c' ts ≡ covered x c (t ∷ ts)
covered-AddCase x c c' t ts v (past h e) = rw e (
    ground (
      arith,
      works_from-le c.max_event_gap x t ts v.later.2,
      works_from-le c.max_event_gap x c.end ts (Ascends-weaken c.end t ts v.later.0 v.later.2),
    ))
covered-AddCase x c c' t ts v (extends h k e) = rw e (ground arith)
covered-AddCase x c c' t ts v (breaks h k e) = rw (e, covers-add_interval x c) (ground arith)

covers-add_all :
    (x : ℤ) (c : Collector) (ts : List ℤ)
    → Before c ts
    → covers x (finish (add_all c ts)) ≡ covered x c ts
unfolding add_all finish
covers-add_all x c [] v = ground (arith, covers-add_interval x c)
covers-add_all x c (t ∷ ts) v =
    covers-add_all x (add c t).0 ts (add-Before c t ts v)
    ∙ covered-AddCase x c _ t ts v (add-AddCase c t v.later.1 v.end_time)

-- When ticks that do not fall, none within `gap` of the epoch, are added to a new collector, the
-- finished intervals cover exactly the moments of [start, end) that lie between two neighbouring
-- ticks at most `gap` apart. All times are far from overflowing an int64.
pub collect-covers :
    (start end gap now : ℤ) (t : ℤ) (ts : List ℤ) (x : ℤ)
    → pos 0 ≤ℤ gap
    → gap <ℤ t
    → IsTime t
    → Ascends t ts
    → covers x (finish (add_all (new_collector start end gap now) (t ∷ ts)))
      ≡ leb_ℤ start x && ltb_ℤ x end && works gap x (t ∷ ts)
unfolding new_collector
collect-covers start end gap now t ts x hg h0 ht hts =
    covers-add_all x (new_collector start end gap now) (t ∷ ts)
      (record { ordered = omega arith; end_time = omega arith; later = (omega arith, ht, hts) })
    ∙ (ground (arith, -ℤ_parts t (pos 0), works_from-le gap x t ts hts))
