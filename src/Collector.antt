-- ===== src/Collector.antt =====
-- watch_daemon/interval.go: turning a sequence of ticks into a sequence of intervals. A method
-- returns the collector as it leaves it.
pub mod Coverage
pub mod Spacing
use golang_time_tracker.Base.{Bool, true, false, List, [], ◌∷◌, ◌++◌, if◌then◌else◌}
use golang_time_tracker.Base.Int.{ℤ, pos, ltb_ℤ, leb_ℤ, sub64}
use golang_time_tracker.Base.Text.{Text}
use golang_time_tracker.Client.{Interval}

pub record Collector : Type 0 where
  pub max_event_gap : ℤ
  pub now : ℤ
  pub l : ℤ
  pub r : ℤ
  pub start : ℤ
  pub end : ℤ
  pub intervals : List Interval
  pub label : Text

unfoldable pub new_collector : ℤ → ℤ → ℤ → ℤ → Collector
new_collector start end max_event_gap now = record {
  max_event_gap = max_event_gap;
  now = now;
  l = start;
  r = end;
  start = pos 0;
  end = pos 0;
  intervals = [];
  label = [];
}

unfoldable pub min : ℤ → ℤ → ℤ
min l r = if ltb_ℤ l r then l else r

unfoldable pub max : ℤ → ℤ → ℤ
max l r = if ltb_ℤ r l then l else r

unfoldable pub add_interval : Collector → Collector
unfolding min max
add_interval c =
    let to_add : Interval = record {
      start = max c.l c.start;
      end = min c.r c.end;
      label = c.label;
    } in
    if leb_ℤ to_add.end to_add.start then c else record c { intervals = c.intervals ++ to_add ∷ [] }

-- The Boolean says whether later ticks should be added too.
unfoldable pub add : Collector → ℤ → Collector × Bool
unfolding add_interval
add c t =
    if ltb_ℤ c.r c.start
    then (c, false)
    else if leb_ℤ (sub64 t c.end) c.max_event_gap
    then (record c { end = t }, true)
    else (record (add_interval c) { start = t; end = t }, true)

unfoldable pub finish : Collector → List Interval
unfolding add_interval
finish c = (add_interval c).intervals

-- A caller's loop over its ticks, which ignores what Add returns.
unfoldable pub add_all : Collector → List ℤ → Collector
add_all c [] = c
add_all c (t ∷ ts) = add_all (add c t).0 ts
