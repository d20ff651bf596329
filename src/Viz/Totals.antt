-- ===== src/Viz/Totals.antt =====
-- The hours and minutes of a day on the page of watch_daemon/viz.go.
use golang_time_tracker.Base.{
  ℕ, ◌+◌, ◌-◌, ◌*◌, ◌/◌, ◌%◌, ◌^◌, ◌≤◌, ◌<◌, ◌≡◌, ap, ◌∙◌, List, [], ◌∷◌, arith, All,
}
use golang_time_tracker.Base.Int.{
  ℤ, pos, add64, sub64, add64-eq, sub64-eq, quot, rem, ◌≤ℤ◌, ◌+ℤ◌, ◌-ℤ◌, eq_of_parts, +ℤ_parts,
  -ℤ_parts,
}
use golang_time_tracker.Client.{Interval}
use golang_time_tracker.Collector.Spacing.{Within, IsTimeline}
use golang_time_tracker.Cli.Totals.{span, total, total-le}
use golang_time_tracker.Viz.{total_time, marshal_day}

span-sub64 :
    (l r : ℕ) (iv : Interval)
    → r < 2 ^ 62
    → Within (pos l) (pos r) iv
    → sub64 iv.end iv.start ≡ pos (span iv)
span-sub64 l r iv small h =
    sub64-eq iv.end iv.start (ground (arith, small, h)) (ground (arith, small, h))
    ∙ eq_of_parts (iv.end -ℤ iv.start) (pos (span iv)) (ground (arith, h, -ℤ_parts iv.end iv.start))

total_time-total :
    (l r : ℕ) (ivs : List Interval) (done : ℕ)
    → r < 2 ^ 62
    → All (Within (pos l) (pos r)) ivs
    → done + total ivs < 2 ^ 62
    → total_time ivs (pos done) ≡ pos (done + total ivs)
unfolding total_time total
total_time-total l r [] done small h fits = ap pos (omega arith)
total_time-total l r (iv ∷ ivs) done small (h, hs) fits =
    ap (λ d. total_time ivs (add64 (pos done) d)) (span-sub64 l r iv small h)
    ∙ ap (total_time ivs) (
        add64-eq (pos done) (pos (span iv)) (omega arith, omega arith) (omega arith, omega arith)
        ∙ eq_of_parts (pos done +ℤ pos (span iv)) (pos (done + span iv))
            (omega (arith, +ℤ_parts (pos done) (pos (span iv)))))
    ∙ total_time-total l r ivs (done + span iv) small hs (omega arith)
    ∙ ap pos (omega arith)

-- For intervals that follow one another within a range of times, as GetIntervals returns them, the
-- hours and minutes in the JSON of a day are those of the seconds in the intervals, rounded down,
-- with no overflow, and together they are no more than the range has.
pub marshal_day_lem :
    (gap : ℤ) (l r : ℕ) (date : ℤ) (ivs : List Interval)
    → pos 0 ≤ℤ gap
    → l ≤ r
    → r < 2 ^ 62
    → IsTimeline gap (pos l) (pos r) ivs
    → ((marshal_day (record { date = date; intervals = ivs })).minutes ≡ pos (total ivs / 60 % 60))
      × (((marshal_day (record { date = date; intervals = ivs })).hours ≡ pos (total ivs / 3600))
          × (total ivs / 3600 * 60 + total ivs / 60 % 60 ≤ (r - l) / 60))
unfolding marshal_day quot rem
marshal_day_lem gap l r date ivs hg le small t =
    let short : total ivs ≤ r - l = total-le gap l r ivs hg le t.within t.spaced in
    let sum : total_time ivs (pos 0) ≡ pos (total ivs) =
      total_time-total l r ivs 0 small t.within (omega arith) ∙ ap pos (omega arith) in
    (ap (λ z. rem (quot z 60) 60) sum, (ap (λ z. quot z 3600) sum, omega arith))
