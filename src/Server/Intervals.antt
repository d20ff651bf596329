-- ===== src/Server/Intervals.antt =====
-- watch_daemon/api_impl.go: GetIntervals, behind its query for the ticks.
pub mod Repeats
pub mod Tallying
pub mod Union
pub mod Report
pub mod Window
pub mod Order
use golang_time_tracker.Base.{List, [], ◌∷◌, none, some, if◌then◌else◌}
use golang_time_tracker.Base.Int.{ℤ, pos, ltb_ℤ, sub64}
use golang_time_tracker.Base.Halt.{Halt, done, panics, ◌>>=◌}
use golang_time_tracker.Base.Text.{Text, text_eq}
use golang_time_tracker.Base.Table.{lookup, insert}
use golang_time_tracker.Database.{TickRow}
use golang_time_tracker.Escape.{unescape}
use golang_time_tracker.Client.{GetIntervalsRequest, GetIntervalsResponse}
use golang_time_tracker.Collector.{Collector, new_collector, add, finish}

-- The variables of the loop over the ticks.
pub record Tally : Type 0 where
  pub collector : List (Text × Collector)
  pub prev_label : Text
  pub prev_t : ℤ

-- collector[k].Add(t): for a key with no collector, a call on a nil pointer.
unfoldable pub add_to : Text → ℤ → List (Text × Collector) → Halt (List (Text × Collector))
add_to k t m = elim (lookup k m) [ none ↦ panics | some c ↦ done (insert k (add c t).0 m) ]

module _ (req : GetIntervalsRequest) (max_event_gap now : ℤ) where
  -- `if collector[label] == nil { ... }`
  unfoldable pub with_collector : Text → List (Text × Collector) → List (Text × Collector)
  with_collector label m = elim (lookup label m) [
    | none ↦
        insert label (record (new_collector req.start req.end max_event_gap now) { label = label })
          m
    | some c ↦ m
  ]

  -- `if prevLabel != label { ... }`, but for the assignment.
  unfoldable pub start_at_prev :
      Text → Tally → List (Text × Collector) → Halt (List (Text × Collector))
  start_at_prev label s m =
      if text_eq s.prev_label label
      then done m
      else if ltb_ℤ (pos 0) s.prev_t
      then add_to label s.prev_t m
      else done m

  -- One round of the loop.
  unfoldable pub tally_row : TickRow → Tally → Halt Tally
  tally_row row s = do
    let label = unescape row.labels
    m ← start_at_prev label s (with_collector label s.collector)
    m' ← add_to label row.time m
    m'' ← add_to [] row.time m'
    done (record { collector = m''; prev_label = label; prev_t = row.time })

  unfoldable pub tally_rows : List TickRow → Tally → Halt Tally
  tally_rows [] s = done s
  tally_rows (row ∷ rows) s = tally_row row s >>= tally_rows rows

  -- Before the loop: a collector for the union of all activities, under the label "".
  unfoldable pub first_tally : Tally
  first_tally = record {
    collector = insert [] (new_collector req.start req.end max_event_gap now) [];
    prev_label = [];
    prev_t = pos 0;
  }

  -- Behind the loop: the last interval goes on until now if another tick could still extend it.
  unfoldable pub extend_to_now : Tally → Halt (List (Text × Collector) × ℤ)
  extend_to_now s =
      if ltb_ℤ (sub64 now s.prev_t) max_event_gap
      then (do
        m ← add_to s.prev_label now s.collector
        m' ← add_to [] now m
        done (m', sub64 now s.prev_t))
      else done (s.collector, pos 0)

  unfoldable pub response : List (Text × Collector) × ℤ → Halt GetIntervalsResponse
  response (m, end_gap) = elim (lookup [] m) [
    | none ↦ panics
    | some c ↦ done (record { intervals = finish c; end_gap = end_gap })
  ]

  -- GetIntervals, once the ticks of the range are read.
  unfoldable pub intervals_of : List TickRow → Halt GetIntervalsResponse
  intervals_of rows = tally_rows rows first_tally >>= λ s. extend_to_now s >>= response
