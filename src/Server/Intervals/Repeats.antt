-- ===== src/Server/Intervals/Repeats.antt =====
-- What a second Add of the same tick does to a collector (watch_daemon/interval.go): nothing.
use golang_time_tracker.Base.{◌≡◌, ◌∙◌, ◌⊎◌, true, arith, Bool-cases, inl, inr}
use golang_time_tracker.Base.Int.{
  ℤ, pos, ltb_ℤ, leb_ℤ, sub64, sub64-eq, IsTime, ◌≤ℤ◌, ◌-ℤ◌, -ℤ_parts, eq_of_parts,
}
use golang_time_tracker.Collector.{Collector, add, add_interval}

sub64_self : (t : ℤ) → IsTime t → sub64 t t ≡ pos 0
sub64_self t h = sub64-eq t t h h ∙ eq_of_parts (t -ℤ t) (pos 0) (ground (arith, -ℤ_parts t t))

-- The collector is past its range, or its current interval ends at `t`.
abbrev Ends : ℤ → Collector → Type 0
Ends t c = (ltb_ℤ c.r c.start ≡ true) ⊎ (c.end ≡ t)

add-Ends : (c : Collector) (t : ℤ) → Ends t (add c t).0
add-Ends c t = elim (Bool-cases (ltb_ℤ c.r c.start)) [
  | inl over ↦ inl (unfold add in rw over over)
  | inr on ↦ inr (elim (Bool-cases (leb_ℤ (sub64 t c.end) c.max_event_gap)) [
    | inl near ↦ unfold add in rw (on, near)
    | inr far ↦ unfold add in rw (on, far)
  ])
]

pub add-gap : (c : Collector) (t : ℤ) → (add c t).0.max_event_gap ≡ c.max_event_gap
unfolding add
add-gap c t = elim (Bool-cases (ltb_ℤ c.r c.start)) [
  | inl over ↦ rw over
  | inr on ↦ elim (Bool-cases (leb_ℤ (sub64 t c.end) c.max_event_gap)) [
    | inl near ↦ rw (on, near)
    | inr far ↦ rw (on, far) (unfold add_interval in ground arith)
  ]
]

pub add_at_end :
    (c : Collector) (t : ℤ) → pos 0 ≤ℤ c.max_event_gap → IsTime t → Ends t c → (add c t).0 ≡ c
unfolding add
add_at_end c t hg ht (inl over) = rw over
add_at_end c t hg ht (inr e) = elim (Bool-cases (ltb_ℤ c.r c.start)) [
  | inl over ↦ rw over
  | inr on ↦
      let near : leb_ℤ (sub64 t t) c.max_event_gap ≡ true = rw (sub64_self t ht) (ground arith) in
      rw (on, e, near)
]

-- Adding the same tick once more changes nothing.
pub add_again :
    (c : Collector) (t : ℤ)
    → pos 0 ≤ℤ c.max_event_gap
    → IsTime t
    → (add (add c t).0 t).0 ≡ (add c t).0
add_again c t hg ht = add_at_end (add c t).0 t (rw (add-gap c t) hg) ht (add-Ends c t)
