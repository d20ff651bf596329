-- ===== src/Client.antt =====
-- client/api.go: the requests and responses of the watch daemon. Times are int64 seconds since the
-- Unix epoch.
use golang_time_tracker.Base.{List}
use golang_time_tracker.Base.Int.{ℤ}
use golang_time_tracker.Base.Text.{Text}

pub record TickRequest : Type 0 where
  pub label : Text

pub record TickResponse : Type 0 where
  pub now : ℤ

pub record WatchRequest : Type 0 where
  pub label : Text
  pub dir : Text

pub record GetIntervalsRequest : Type 0 where
  pub start : ℤ
  pub end : ℤ

pub record Interval : Type 0 where
  pub start : ℤ
  pub end : ℤ
  pub label : Text

pub record GetIntervalsResponse : Type 0 where
  pub intervals : List Interval
  pub end_gap : ℤ

pub record WatchInfo : Type 0 where
  pub last_write : ℤ
  pub dir : Text
  pub label : Text

pub record GetWatchesResponse : Type 0 where
  pub watches : List WatchInfo
