-- ===== src/Viz.antt =====
-- watch_daemon/viz.go: the page with the last five days, and the JSON of a day. What the time
-- library makes of Now is a parameter, the 0:00 of each day, and so is Go's html/template.
pub mod Totals
use golang_time_tracker.Base.{
  ℕ, zero, suc, ◌+◌, Bool, List, [], ◌∷◌, map, Option, none, some, not, if◌then◌else◌,
}
use golang_time_tracker.Base.Int.{ℤ, pos, add64, sub64, quot, rem}
use golang_time_tracker.Base.Text.{Text, codes}
use golang_time_tracker.Client.{Interval}
use golang_time_tracker.Database.{Database}
use golang_time_tracker.Server.State.{s_day, Result, ok, err, Server, Outcome, returned, ◌>>=◌}
use golang_time_tracker.Server.Logging.{log_get_intervals}
use golang_time_tracker.Http.{Response, asset_data, fresh, write, http_error}

-- day; a nil slice of intervals makes the same JSON as an empty one.
pub record Day : Type 0 where
  pub date : ℤ
  pub intervals : List Interval

pub record DayJson : Type 0 where
  pub date : ℤ
  pub intervals : List Interval
  pub minutes : ℤ
  pub hours : ℤ

unfoldable pub total_time : List Interval → ℤ → ℤ
total_time [] total = total
total_time (i ∷ is) total = total_time is (add64 total (sub64 i.end i.start))

-- MarshalJSON
unfoldable pub marshal_day : Day → DayJson
marshal_day d =
    let total = total_time d.intervals (pos 0) in
    record {
      date = d.date;
      intervals = d.intervals;
      minutes = rem (quot total 60) 60;
      hours = quot total 3600;
    }

-- Asset, and a template that has been parsed: what it writes, and whether it succeeds.
pub record Templates : Type 0 where
  pub asset : Text → Option Text
  pub parses : Text → Bool
  pub execute : Text → List DayJson → List Text × Bool

unfoldable pub write_all : List Text → Response → Response
write_all [] w = w
write_all (t ∷ ts) w = write_all ts (write (asset_data t) w)

-- Start from the call of Asset on; without the asset it goes on with an empty template.
unfoldable pub render_days : Templates → List Day → Response
render_days T days =
    let found : Response × Text = elim (T.asset (codes "assets/viz.html")) [
      | some text ↦ (fresh, text)
      | none ↦ (http_error 500 fresh, [])
    ] in
    if not (T.parses found.1)
    then http_error 500 found.0
    else let run : List Text × Bool = T.execute found.1 (map marshal_day days) in
      let written : Response = write_all run.0 found.0 in
      if run.1 then written else http_error 500 written

module _ (D : Database) (midnight : ℕ → ℤ) where
  -- The loop of Start: the days from the i-th on, `count` of them.
  unfoldable pub load_days : ℕ → ℕ → ℤ → Server D → Outcome (Result (List Day))
  load_days zero i now s = returned (ok [])
  load_days (suc count) i now s =
      log_get_intervals D (record { start = midnight i; end = add64 (midnight i) (pos s_day) }) now
        s
      >>= λ r. elim r [
        | err e ↦ returned (err e)
        | ok resp ↦ load_days count (i + 1) now s >>= λ rest. elim rest [
          | err e ↦ returned (err e)
          | ok days ↦
              returned (ok (record { date = midnight i; intervals = resp.intervals } ∷ days))
        ]
      ]

  -- Start
  unfoldable pub start : Templates → ℤ → Server D → Outcome Response
  start T now s = load_days 5 0 now s >>= λ r. elim r [
    | err e ↦ returned (http_error 500 fresh)
    | ok days ↦ returned (render_days T days)
  ]
