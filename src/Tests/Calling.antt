-- ===== src/Tests/Calling.antt =====
-- Tests of the client's calls and of the page with the last days.
use golang_time_tracker.Base.{
  ℕ, ◌+◌, ◌*◌, ◌/◌, ◌%◌, ◌-◌, ◌≤◌, ◌≡◌, refl, true, List, [], ◌∷◌, ◌++◌, ◌==◌, none, some, arith,
  if◌then◌else◌,
}
use golang_time_tracker.Base.Int.{ℤ, pos, negsuc, +ℤ_parts}
use golang_time_tracker.Base.Text.{Text, codes, text_eq}
use golang_time_tracker.Base.Paths.{slash, clean, base, is_abs}
use golang_time_tracker.Client.{Interval, GetIntervalsResponse}
use golang_time_tracker.Collector.Spacing.{IsTimeline}
use golang_time_tracker.Cli.Totals.{total}
use golang_time_tracker.Database.Memory.{memory}
use golang_time_tracker.Server.State.{returned, ◌>>=◌}
use golang_time_tracker.Server.Handlers.{tick, watch, get_intervals}
use golang_time_tracker.Http.Numbers.{IsInt64}
use golang_time_tracker.Http.Serve.{Clocks}
use golang_time_tracker.Viz.{Templates, marshal_day}
use golang_time_tracker.Viz.Totals.{marshal_day_lem}
use golang_time_tracker.Remote.{Answer, answer, client_tick, client_get_intervals, client_watch}
use golang_time_tracker.Remote.Urls.{Lacks}
use golang_time_tracker.Remote.Refines.{told, told_intervals, client_get_intervals_lem}
use golang_time_tracker.Remote.Commands.{client_tick_lem, watch_answered, client_watch_lem}
use golang_time_tracker.Cli.{last_interval}
use golang_time_tracker.Commands.{border, drawn, draw_frames, week_frame, watch_dir, watch_command}
use golang_time_tracker.Commands.Watching.{watch_command_lem}
use golang_time_tracker.Commands.Screens.{
  IsRetrieved, week_lines, tick_after, draw_frames-week_frame,
}
use golang_time_tracker.Tests.Data.{gap, empty_server}

abbrev midnights : ℕ → ℤ
midnights i = pos (i * 86400)

abbrev plain_page : Templates
plain_page = record {
  asset = λ path. some (codes "page");
  parses = λ text. true;
  execute = λ text days. (text ∷ [], true);
}

abbrev localhost : Text
localhost = codes "localhost:9089"

localhost_plain : Lacks slash localhost
localhost_plain = (
  refl,
  (
    refl,
    (
      refl,
      (refl, (refl, (refl, (refl, (refl, (refl, (refl, (refl, (refl, (refl, (refl, tt))))))))))),
    ),
  ),
)

abbrev at_5000 : Clocks
at_5000 = record { now = pos 5000; uptime = pos 1000 }

in_range : IsInt64 (pos 10)
unfolding IsInt64
in_range = omega arith

before_epoch : IsInt64 (negsuc 4)
unfolding IsInt64
before_epoch = omega arith

client_get_intervals_lem_example :
    client_get_intervals memory midnights plain_page localhost
      (negsuc 4)
      (pos 10)
      at_5000
      empty_server
    ≡ told_intervals memory empty_server
        (get_intervals memory (record { start = negsuc 4; end = pos 10 }) (pos 5000) empty_server)
client_get_intervals_lem_example =
    client_get_intervals_lem memory midnights plain_page localhost (negsuc 4) (pos 10) at_5000
      empty_server localhost_plain before_epoch in_range

client_tick_lem_example :
    client_tick memory midnights plain_page localhost (codes "w") at_5000 empty_server
    ≡ told memory (
        tick memory
          (if text_eq (codes "w") [] then none else some (record { label = codes "w" }))
          (pos 5000)
          empty_server)
client_tick_lem_example =
    client_tick_lem memory midnights plain_page localhost (codes "w") at_5000 empty_server
      localhost_plain

c_rooted : is_abs (clean (codes "/c")) ≡ true
unfolding clean text_eq
c_rooted = refl

client_watch_lem_example :
    client_watch memory midnights plain_page localhost (codes "/c") [] at_5000 empty_server ≡ (
      watch memory (record { dir = codes "/c"; label = codes "c" }) (pos 5000) empty_server >>= λ r.
      returned (r.0, watch_answered r.1))
unfolding clean base text_eq
client_watch_lem_example =
    client_watch_lem memory midnights plain_page localhost (codes "/c") [] at_5000 empty_server
      localhost_plain c_rooted

abbrev two_hours : List Interval
two_hours =
    record { start = pos 1000; end = pos 4700; label = [] }
    ∷ record { start = pos 9000; end = pos 12600; label = [] }
    ∷ []

two_hours-IsTimeline : IsTimeline gap (pos 0) (pos 86400) two_hours
two_hours-IsTimeline = record {
  within = ((omega arith, omega arith, omega arith), ((omega arith, omega arith, omega arith), tt));
  spaced = ((omega (arith, +ℤ_parts), tt), (tt, tt));
}

marshal_day_lem_example :
    ((marshal_day (record { date = pos 0; intervals = two_hours })).minutes
      ≡ pos (total two_hours / 60 % 60))
    × (((marshal_day (record { date = pos 0; intervals = two_hours })).hours
          ≡ pos (total two_hours / 3600))
        × (total two_hours / 3600 * 60 + total two_hours / 60 % 60 ≤ (86400 - 0) / 60))
marshal_day_lem_example =
    marshal_day_lem gap 0 86400 (pos 0) two_hours (omega arith) (omega arith) (omega arith)
      two_hours-IsTimeline

watch_command_lem_example :
    (dir : Text) × ((watch_dir (some (codes "/home")) (codes "c") ≡ some dir)
      × ((is_abs (clean dir) ≡ true)
          × (watch_command memory midnights plain_page localhost
                (some (codes "/home"))
                []
                (codes "c")
                at_5000
                empty_server
              ≡ (watch memory
                    (record { dir = clean dir; label = base (clean dir) })
                    (pos 5000)
                    empty_server
                  >>= λ r. returned (r.0, some (watch_answered r.1))))))
unfolding base text_eq
watch_command_lem_example =
    watch_command_lem memory midnights plain_page localhost (codes "/home") [] (codes "c") at_5000
      empty_server localhost_plain refl

abbrev some_hours : ℕ → Answer GetIntervalsResponse
some_hours day = answer (record { intervals = two_hours; end_gap = pos day })

hours-IsRetrieved : (d : ℕ) → IsRetrieved (some_hours d)
unfolding IsRetrieved last_interval
hours-IsRetrieved d = (record { intervals = two_hours; end_gap = pos d }, (refl, λ e n. cc))

draw_frames-week_frame_example :
    draw_frames week_frame 0 ((some_hours ∷ []) ++ some_hours ∷ []) (border ∷ [])
    ≡ drawn ((border ∷ []) ++ week_lines 7 0 (tick_after (some_hours ∷ []) 0 == 1) some_hours)
draw_frames-week_frame_example =
    draw_frames-week_frame (some_hours ∷ []) some_hours (border ∷ []) (hours-IsRetrieved, tt)
      hours-IsRetrieved
