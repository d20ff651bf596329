-- ===== src/Cli/Totals.antt =====
-- The time worked that dayRow (cli/main.go) prints, over the day's intervals.
use golang_time_tracker.Base.{
  ℕ, ◌+◌, ◌-◌, ◌*◌, ◌/◌, ◌%◌, ◌^◌, ◌≤◌, ◌<◌, ◌≡◌, ◌≢◌, refl, ap, ◌∙◌, Bool, List, [], ◌∷◌, Option,
  none, some, arith, if◌then◌else◌, ltb, All, Bool-cases, Option-cases, inl, inr,
}
use golang_time_tracker.Base.Int.{
  quot, rem, ℤ, pos, negsuc, pos_part, add64, sub64, wrap64, wrap64-eq_self, ltb_ℤ, ◌≤ℤ◌, ◌<ℤ◌,
  ◌+ℤ◌, ◌-ℤ◌, +ℤ_parts,
}
use golang_time_tracker.Base.Halt.{done}
use golang_time_tracker.Client.{Interval, GetIntervalsResponse}
use golang_time_tracker.Collector.Spacing.{Within, Spaced, IsTimeline}
use golang_time_tracker.Cli.{
  s_minute, s_hour, second, seconds, is_last, work_round, work_duration, Row, last_interval,
  minutes_to_go, shorten_last, day_row,
}

-- The seconds in an interval of times after the epoch.
abbrev pub span : Interval → ℕ
span iv = pos_part iv.end - pos_part iv.start

-- The seconds in the intervals of an hour or more, less the end gap if the last interval is one of
-- them.
unfoldable pub worked : ℕ → List Interval → ℕ
worked end_gap [] = 0
worked end_gap (iv ∷ ivs) =
    let rest = worked end_gap ivs in
    if ltb (span iv) 3600 then rest else span iv - (if is_last ivs then end_gap else 0) + rest

unfoldable pub total : List Interval → ℕ
total [] = 0
total (iv ∷ ivs) = span iv + total ivs

All-after :
    (gap l r e : ℤ) (ivs : List Interval)
    → pos 0 ≤ℤ gap
    → pos 0 ≤ℤ e
    → All (Within l r) ivs
    → All (λ later. e +ℤ gap <ℤ later.start) ivs
    → All (Within (pos (pos_part e)) r) ivs
All-after gap l r e [] hg he h s = tt
All-after gap l r e (iv ∷ ivs) hg he h s =
    ((ground (arith, +ℤ_parts e gap), h.0.1, h.0.2), All-after gap l r e ivs hg he h.1 s.1)

-- Intervals that follow one another within [l, r] are no longer than that together.
pub total-le :
    (gap : ℤ) (l r : ℕ) (ivs : List Interval)
    → pos 0 ≤ℤ gap
    → l ≤ r
    → All (Within (pos l) (pos r)) ivs
    → Spaced gap ivs
    → total ivs ≤ r - l
unfolding total
total-le gap l r [] hg le h s = ground arith
total-le gap l r (iv ∷ ivs) hg le h s =
    let after_start : pos 0 ≤ℤ iv.end = ground arith in
    let rest : total ivs ≤ r - pos_part iv.end =
      total-le gap (pos_part iv.end) r ivs hg (ground arith)
        (All-after gap (pos l) (pos r) iv.end ivs hg after_start h.1 s.0) s.1 in
    ground arith

seconds-eq : (n : ℕ) → n < 2 ^ 32 → seconds (pos n) ≡ pos (n * second)
unfolding seconds
seconds-eq n h = wrap64-eq_self (pos (n * second)) (ground arith) (ground arith)

sub64_pos : (a b : ℕ) → b ≤ a → a < 2 ^ 63 → sub64 (pos a) (pos b) ≡ pos (a - b)
unfolding sub64 ◌-ℤ◌
sub64_pos a b le h =
    let plain : pos a -ℤ pos b ≡ pos (a - b) = ground arith in
    ap wrap64 plain ∙ wrap64-eq_self (pos (a - b)) (ground arith) (ground arith)

add64_pos : (a b : ℕ) → a + b < 2 ^ 63 → add64 (pos a) (pos b) ≡ pos (a + b)
unfolding add64 ◌+ℤ◌
add64_pos a b h =
    let plain : pos a +ℤ pos b ≡ pos (a + b) = ground arith in
    ap wrap64 plain ∙ wrap64-eq_self (pos (a + b)) (ground arith) (ground arith)

eq_pos_part : (l : ℕ) (a : ℤ) → pos l ≤ℤ a → a ≡ pos (pos_part a)
eq_pos_part l (pos n) h = refl
eq_pos_part l (negsuc n) h = ground arith

span-eq :
    (l r : ℕ) (iv : Interval)
    → Within (pos l) (pos r) iv
    → r < 2 ^ 60
    → sub64 iv.end iv.start ≡ pos (span iv)
span-eq l r iv h hr =
    ap (λ e. sub64 e iv.start) (eq_pos_part l iv.end (ground arith))
    ∙ ap (λ b. sub64 (pos (pos_part iv.end)) b) (eq_pos_part l iv.start (ground arith))
    ∙ sub64_pos (pos_part iv.end) (pos_part iv.start) (ground arith) (ground arith)

abbrev round_worked : ℕ → Interval → Bool → ℕ
round_worked g iv last = if ltb (span iv) 3600 then 0 else span iv - (if last then g else 0)

work_round_lem :
    (l r g w : ℕ) (iv : Interval) (last : Bool)
    → Within (pos l) (pos r) iv
    → r < 2 ^ 60
    → g ≤ 3600
    → w + span iv < 2 ^ 32
    → work_round (pos g) iv last (pos (w * second)) ≡ pos ((w + round_worked g iv last) * second)
unfolding work_round
work_round_lem l r g w iv last h hr hg hw =
    let eq = span-eq l r iv h hr in
    let added : add64 (pos (w * second)) (seconds (pos (span iv))) ≡ pos ((w + span iv) * second) =
      ap (add64 (pos (w * second))) (seconds-eq (span iv) (ground arith))
      ∙ add64_pos (w * second) (span iv * second) (ground arith)
      ∙ ap pos (ground arith) in
    let cut : 3600 ≤ span iv
        → sub64 (pos ((w + span iv) * second)) (seconds (pos g))
          ≡ pos ((w + (span iv - g)) * second) =
      λ long.
        ap (sub64 (pos ((w + span iv) * second))) (seconds-eq g (ground arith))
        ∙ sub64_pos ((w + span iv) * second) (g * second) (ground arith) (ground arith)
        ∙ ap pos (ground arith) in
    rw eq (elim (Bool-cases (ltb (span iv) 3600)) [
      | inl short ↦ ground (arith, short)
      | inr long ↦ elim (Bool-cases last) [
        | inl e ↦ rw (added, e) (ground (arith, long, cut))
        | inr e ↦ rw (added, e) (ground (arith, long))
      ]
    ])

work_duration_lem :
    (l r g w : ℕ) (ivs : List Interval)
    → All (Within (pos l) (pos r)) ivs
    → r < 2 ^ 60
    → g ≤ 3600
    → w + total ivs < 2 ^ 32
    → work_duration (pos g) ivs (pos (w * second)) ≡ pos ((w + worked g ivs) * second)
unfolding work_duration worked total
work_duration_lem l r g w [] h hr hg hw = ap pos (ground arith)
work_duration_lem l r g w (iv ∷ ivs) h hr hg hw =
    ap (work_duration (pos g) ivs)
      (work_round_lem l r g w iv (is_last ivs) h.0 hr hg (ground arith))
    ∙ work_duration_lem l r g (w + round_worked g iv (is_last ivs)) ivs h.1 hr hg (ground arith)
    ∙ ap (λ n. pos (n * second)) (ground arith)

hours_lem : (n : ℕ) → quot (pos (n * second)) (s_hour * second) ≡ pos (n / 3600)
unfolding quot
hours_lem n = ap pos (omega arith)

minutes_lem :
    (n : ℕ)
    → quot (rem (pos (n * second)) (s_hour * second)) (s_minute * second) ≡ pos (n % 3600 / 60)
unfolding quot rem
minutes_lem n = ap pos (omega arith)

nonempty_last : (ivs : List Interval) → ivs ≢ [] → (iv : Interval) × (last_interval ivs ≡ some iv)
unfolding last_interval
nonempty_last [] h = absurd (h refl)
nonempty_last (iv ∷ ivs) h = elim (Option-cases (last_interval ivs)) [
  | inl e ↦ (iv, rw e)
  | inr (last, e) ↦ (last, rw e)
]

-- For a day's intervals that follow one another within the day and an end gap of an hour at most,
-- dayRow prints the hours and minutes in the intervals of an hour or more, less the end gap if the
-- last interval is one of them, and does not panic; if there is no end gap without an interval and
-- the day begins before 2 to the 59.
pub day_row_lem :
    (gap : ℤ) (start g : ℕ) (include : Bool) (resp : GetIntervalsResponse)
    → pos 0 ≤ℤ gap
    → start < 2 ^ 59
    → g ≤ 3600
    → resp.end_gap ≡ pos g
    → (resp.intervals ≡ [] → g ≡ 0)
    → IsTimeline gap (pos start) (pos (start + 86400)) resp.intervals
    → (row : Row) × (day_row include resp ≡ done row)
      × (row.hours ≡ pos (worked g resp.intervals / 3600))
      × (row.minutes ≡ pos (worked g resp.intervals % 3600 / 60))
unfolding day_row
day_row_lem gap start g include resp hg hs hr eq nonempty v =
    let work : work_duration resp.end_gap resp.intervals (pos 0)
        ≡ pos (worked g resp.intervals * second) =
      ap (λ e. work_duration e resp.intervals (pos 0)) eq
      ∙ work_duration_lem start (start + 86400) g 0 resp.intervals v.within (ground arith) hr (
          ground (
            arith,
            total-le gap start (start + 86400) resp.intervals hg (ground arith) v.within v.spaced,
          ))
      ∙ ap (λ n. pos (n * second)) (ground arith) in
    let dur : ℤ = work_duration resp.end_gap resp.intervals (pos 0) in
    let in_hours : quot dur (s_hour * second) ≡ pos (worked g resp.intervals / 3600) =
      ap (λ w. quot w (s_hour * second)) work ∙ hours_lem (worked g resp.intervals) in
    let in_minutes : quot (rem dur (s_hour * second)) (s_minute * second)
        ≡ pos (worked g resp.intervals % 3600 / 60) =
      ap (λ w. quot (rem w (s_hour * second)) (s_minute * second)) work
      ∙ minutes_lem (worked g resp.intervals) in
    let printed : Option ℤ → List Interval → Row = λ left shown. record {
      hours = quot dur (s_hour * second);
      minutes = quot (rem dur (s_hour * second)) (s_minute * second);
      to_go = left;
      shown = shown;
    } in
    elim (Bool-cases (ltb_ℤ (pos 0) resp.end_gap)) [
      | inr e ↦ (printed none resp.intervals, rw e, in_hours, in_minutes)
      | inl e ↦
          let (last, found) = nonempty_last resp.intervals (λ empty. ground (arith, nonempty)) in
          (
            printed (minutes_to_go resp.end_gap last)
                (if include then resp.intervals else shorten_last resp.end_gap resp.intervals),
            rw (e, found),
            in_hours,
            in_minutes,
          )
    ]
