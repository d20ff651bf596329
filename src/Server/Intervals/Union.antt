-- ===== src/Server/Intervals/Union.antt =====
-- GetIntervals (watch_daemon/api_impl.go) returns the intervals of all ticks together: which labels
-- they have makes no difference, and no collector that it asks for is missing.
use mathlib.Core.List.{append-nil}
use golang_time_tracker.Base.{
  ◌≡◌, refl, sym, ap, ◌∙◌, Bool, true, false, List, [], ◌∷◌, ◌++◌, some, All, if◌then◌else◌,
}
use golang_time_tracker.Base.Int.{ℤ, pos, ltb_ℤ, sub64, IsTime, ◌≤ℤ◌}
use golang_time_tracker.Base.Halt.{done}
use golang_time_tracker.Base.Text.{Text}
use golang_time_tracker.Base.Table.{lookup}
use golang_time_tracker.Database.{TickRow}
use golang_time_tracker.Client.{GetIntervalsRequest}
use golang_time_tracker.Collector.{Collector, new_collector, add, finish, add_all}
use golang_time_tracker.Server.Intervals.{first_tally, response, intervals_of}
use golang_time_tracker.Server.Intervals.Tallying.{
  times, last_time, tally_rows-IsTally, is_open, counted, first_tally-IsTally, extend_to_now-union,
}

add_all-snoc :
    (c : Collector) (ts : List ℤ) (t : ℤ) → add_all c (ts ++ t ∷ []) ≡ (add (add_all c ts) t).0
unfolding add_all
add_all-snoc c [] t = refl
add_all-snoc c (u ∷ ts) t = add_all-snoc (add c u).0 ts t

add_all_open :
    (c : Collector) (ts : List ℤ) (t : ℤ) (b : Bool)
    → (if b then (add (add_all c ts) t).0 else add_all c ts)
      ≡ add_all c (ts ++ (if b then t ∷ [] else []))
add_all_open c ts t true = sym (add_all-snoc c ts t)
add_all_open c ts t false = rw append-nil

first_prev_t : (req : GetIntervalsRequest) (gap now : ℤ) → (first_tally req gap now).prev_t ≡ pos 0
unfolding first_tally
first_prev_t req gap now = refl

-- The response, from the collector of the union and the time of the last tick.
respond :
    (req : GetIntervalsRequest) (gap now : ℤ) (m : List (Text × Collector)) (c : Collector)
    (ts : List ℤ) (prev_t last : ℤ)
    → prev_t ≡ last
    → (let b = ltb_ℤ (sub64 now prev_t) gap in
        lookup [] m ≡ some (if b then (add (add_all c ts) now).0 else add_all c ts))
    → (let b = ltb_ℤ (sub64 now last) gap in
        response req gap now (m, if ltb_ℤ (sub64 now prev_t) gap then sub64 now prev_t else pos 0)
        ≡ done (record {
          intervals = finish (add_all c (ts ++ (if b then now ∷ [] else [])));
          end_gap = if b then sub64 now last else pos 0;
        }))
unfolding response
respond req gap now m c ts prev_t last p u =
    rw (u, response, ← p, add_all_open c ts now (ltb_ℤ (sub64 now prev_t) gap))

-- GetIntervals ends without a panic, whatever labels the ticks have, and returns the intervals that
-- a single collector makes of all their times, with the present moment as one more tick if it is
-- less than `max_event_gap` after the last tick (after the epoch, if there is none). The end gap is
-- then the time since that tick, and otherwise 0. The maximal
-- gap is not negative, and now and all ticks are far from overflowing.
pub intervals_of-union :
    (req : GetIntervalsRequest) (max_event_gap now : ℤ) (rows : List TickRow)
    → pos 0 ≤ℤ max_event_gap
    → IsTime now
    → All (λ row. IsTime row.time) rows
    → intervals_of req max_event_gap now rows
      ≡ done (record {
        intervals = finish (
            add_all
              (new_collector req.start req.end max_event_gap now)
              (counted req max_event_gap now rows));
        end_gap =
            if is_open req max_event_gap now rows
            then sub64 now (last_time (pos 0) rows)
            else pos 0;
      })
unfolding intervals_of
intervals_of-union req gap now rows hg hn ht =
    let c0 : Collector = new_collector req.start req.end gap now in
    let (s, e, v, p, g) =
      tally_rows-IsTally req gap now c0 rows (first_tally req gap now) (unfold new_collector in hg)
        ht (first_tally-IsTally req gap now hg) in
    let (m, e', u) =
      extend_to_now-union req gap now (add_all c0 (times rows)) s
        (rw g (unfold new_collector in hg)) hn v in
    rw (e, e')
      (respond req gap now m c0 (times rows) s.prev_t (last_time (pos 0) rows)
        (p ∙ ap (λ t. last_time t rows) (first_prev_t req gap now)) u)
