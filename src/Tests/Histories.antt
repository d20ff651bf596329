-- ===== src/Tests/Histories.antt =====
-- Tests of the calls of the daemon in a row, on a database in memory.
use golang_time_tracker.Base.{
  arith, true, inl, ◌≡◌, refl, ◌⊎◌, false, List, [], ◌∷◌, some, All, map,
}
use golang_time_tracker.Base.Int.{sub64, add64, ◌-ℤ◌, ℤ, pos, ◌≤ℤ◌, ◌<ℤ◌}
use golang_time_tracker.Base.Text.{codes, text_eq, text_lt}
use golang_time_tracker.Base.Table.{insert}
use golang_time_tracker.Client.{WatchInfo, GetIntervalsRequest, GetIntervalsResponse}
use golang_time_tracker.Escape.{escape, unescape}
use golang_time_tracker.Database.Memory.{put_tick, find_tick, memory, memory_rules, Tables, run}
use golang_time_tracker.Database.Memory.Rows.{sort_rows}
use golang_time_tracker.Database.Rules.{ticks_between}
use golang_time_tracker.Server.State.{err, db_error, ok, Server, returned}
use golang_time_tracker.Server.Watches.{align_watches, create}
use golang_time_tracker.Server.Handlers.{
  tick, get_intervals, new_server, get_db_watches, delete_excess, sync_watches, watch, get_watches,
  lock_db, add_watch_to_db, sync_added, parse_watches, conflict, insert_new_watch,
}
use golang_time_tracker.Server.Recording.{
  record_writes_in_db, record_round, record_txn, record_write, handle_event, set_pending,
}
use golang_time_tracker.Server.Invariant.{IsTable-nil}
use golang_time_tracker.Collector.Coverage.{covers}
use golang_time_tracker.Server.Intervals.Report.{AreTicks}
use golang_time_tracker.Server.Answering.{
  ReadsInOrder, Ascends-between, Answers, get_intervals-Answers,
}
use golang_time_tracker.Server.Worked.{ticks_answered}
use golang_time_tracker.Server.Steps.{Hangs, IsServer}
use golang_time_tracker.Server.Reading.{IsShown, get_watches_lem}
use golang_time_tracker.Server.Calls.{
  call_watch, file_event, round_record, perform, Runs, rests, goes,
}
use golang_time_tracker.Server.Lasting.Calls.{IsFair, Lasts}
use golang_time_tracker.Server.Runs.{perform-Lasts, Runs-IsServer}
use golang_time_tracker.Server.Keeping.{KeepsCall, tick_stays}
use golang_time_tracker.Tests.Data.{running, gap, empty_server, c-IsVerbatim, w-IsVerbatim}
use golang_time_tracker.Tests.Serving.{
  watch_c, w_tick, commits, ticked_server, ticks_once, empty_server-IsServer,
}

abbrev empty_tables : Tables
empty_tables = record { ticks = []; watches = [] }

abbrev fresh_server : Server memory
fresh_server = record {
  max_event_gap = gap;
  db = empty_tables;
  db_locked = false;
  watches = record { heap = []; watches = [] };
}

starts : new_server memory empty_tables ≡ ok fresh_server
unfolding new_server run
starts = refl

-- With /c watched, which has had an event that is pending or has been recorded.
abbrev c_server : Server memory
c_server = record fresh_server {
  db = record {
    ticks = [];
    watches = record { last_write = pos 5000; dir = codes "/c"; label = codes "w" } ∷ [];
  };
  watches = record { heap = running (codes "/c") ∷ []; watches = (codes "/c", 0) ∷ [] };
}

abbrev c_pending : Server memory
c_pending = record c_server {
  watches = record {
    heap = record (running (codes "/c")) { has_pending = 1 } ∷ [];
    watches = (codes "/c", 0) ∷ [];
  };
}

abbrev c_recorded : Server memory
c_recorded = record c_server {
  db = record {
    ticks = record { time = pos 5003; labels = codes "w" } ∷ [];
    watches = record { last_write = pos 5003; dir = codes "/c"; label = codes "w" } ∷ [];
  };
}

watches_c : perform memory (call_watch watch_c (pos 5000)) fresh_server ≡ returned c_server
unfolding perform watch add_watch_to_db sync_added sync_watches lock_db get_db_watches parse_watches
    conflict insert_new_watch delete_excess run sort_rows escape unescape text_eq text_lt
    align_watches create insert
watches_c = refl

c_event : perform memory (file_event 0) c_server ≡ returned c_pending
unfolding perform handle_event set_pending
c_event = refl

c_round : perform memory (round_record commits 0 (pos 5003)) c_pending ≡ returned c_recorded
unfolding perform record_writes_in_db record_round record_txn record_write set_pending lock_db run
    escape text_eq
c_round = refl

c-Runs : Runs memory (IsFair memory memory_rules) fresh_server c_recorded
c-Runs =
    goes (round_record commits 0 (pos 5003))
      (goes (file_event 0)
        (goes (call_watch watch_c (pos 5000)) rests (c-IsVerbatim, w-IsVerbatim) watches_c) tt
        c_event)
      (refl, (λ e. cc)) c_round

Runs-IsServer_example : IsServer memory memory_rules c_recorded ⊎ Hangs memory c_recorded
unfolding memory_rules
Runs-IsServer_example =
    Runs-IsServer memory memory_rules empty_tables fresh_server c_recorded starts IsTable-nil c-Runs

perform-Lasts_example :
    Lasts memory memory_rules (perform memory (call_watch watch_c (pos 5000)) empty_server)
perform-Lasts_example =
    perform-Lasts memory memory_rules (call_watch watch_c (pos 5000)) empty_server
      empty_server-IsServer (c-IsVerbatim, w-IsVerbatim)

get_watches_lem_example :
    (infos : List WatchInfo) × (get_watches memory empty_server
      ≡ returned (ok (record { watches = infos })))
    × (map (λ info. info.dir) infos ≡ codes "/a" ∷ codes "/b" ∷ [])
    × All (IsShown empty_server.watches.heap) infos
get_watches_lem_example = get_watches_lem memory memory_rules empty_server empty_server-IsServer

-- An event of /a behind the tick at 5000, recorded at 5003.
abbrev ticked_pending : Server memory
ticked_pending = record ticked_server {
  watches = record {
    heap = record (running (codes "/a")) { has_pending = 1 } ∷ running (codes "/b") ∷ [];
    watches = (codes "/a", 0) ∷ (codes "/b", 1) ∷ [];
  };
}

abbrev ticked_twice : Server memory
ticked_twice = record ticked_server {
  db = record {
    ticks =
        record { time = pos 5000; labels = codes "w" }
        ∷ record { time = pos 5003; labels = codes "w" }
        ∷ [];
    watches = [];
  };
}

a_event : perform memory (file_event 0) ticked_server ≡ returned ticked_pending
unfolding perform handle_event set_pending
a_event = refl

a_round : perform memory (round_record commits 0 (pos 5003)) ticked_pending ≡ returned ticked_twice
unfolding perform record_writes_in_db record_round record_txn record_write set_pending lock_db run
    escape text_eq
a_round = refl

a-Runs :
    Runs memory (λ u c. IsFair memory memory_rules u c × KeepsCall c) ticked_server ticked_twice
a-Runs =
    goes (round_record commits 0 (pos 5003)) (goes (file_event 0) rests (tt, tt) a_event)
      ((refl, (λ e. cc)), tt) a_round

tick_stays_example : memory_rules.tick_at ticked_twice.db (pos 5000) ≡ some (codes "w")
tick_stays_example =
    tick_stays memory memory_rules w_tick (pos 5000) (record { now = pos 5000 }) empty_server
      ticked_server ticked_twice (inl empty_server-IsServer) w-IsVerbatim ticks_once a-Runs

-- A second tick, fifteen minutes after the first.
abbrev ticked_thrice : Server memory
ticked_thrice = record ticked_server {
  db = record {
    ticks =
        record { time = pos 5000; labels = codes "w" }
        ∷ record { time = pos 5003; labels = codes "w" }
        ∷ record { time = pos 5900; labels = codes "w" }
        ∷ [];
    watches = [];
  };
}

ticks_again :
    tick memory (some w_tick) (pos 5900) ticked_twice
    ≡ returned (ticked_thrice, ok (record { now = pos 5900 }))
unfolding tick lock_db run escape put_tick find_tick
ticks_again = refl

abbrev two_hours : GetIntervalsRequest
two_hours = record { start = pos 4000; end = pos 11200 }

thrice-AreTicks : AreTicks gap (pos 6000) (memory_rules.ticks_of ticked_thrice.db)
unfolding memory_rules
thrice-AreTicks = record {
  ascend = (
    omega arith,
    (omega arith, omega arith),
    (omega arith, (omega arith, omega arith), (omega arith, (omega arith, omega arith), tt)),
  );
  after_epoch = (omega arith, (omega arith, (omega arith, tt)));
  no_future = omega arith;
  now_time = (omega arith, omega arith);
  gap_time = (omega arith, omega arith);
  gap_nonneg = omega arith;
}

thrice-ReadsInOrder : ReadsInOrder memory memory_rules two_hours ticked_thrice
unfolding memory_rules
thrice-ReadsInOrder rows e =
    let lo = sub64 two_hours.start gap in
    let hi = add64 two_hours.end gap in
    let same : ticks_between lo hi ticked_thrice.db.ticks ≡ rows = cc in
    rw (← same) (Ascends-between lo hi (pos 0) ticked_thrice.db.ticks thrice-AreTicks.ascend)

get_intervals-Answers_example :
    ((resp : GetIntervalsResponse) × (get_intervals memory two_hours (pos 6000) ticked_thrice
        ≡ returned (ok resp))
      × Answers two_hours gap (pos 6000) (memory_rules.ticks_of ticked_thrice.db) resp)
    ⊎ (get_intervals memory two_hours (pos 6000) ticked_thrice ≡ returned (err db_error))
get_intervals-Answers_example =
    get_intervals-Answers memory memory_rules two_hours (pos 6000) ticked_thrice refl
      thrice-AreTicks (omega arith) (omega arith, omega arith) (omega arith, omega arith)
      thrice-ReadsInOrder

ticks_answered_example :
    ((resp : GetIntervalsResponse) × (get_intervals memory two_hours (pos 6000) ticked_thrice
        ≡ returned (ok resp))
      × ((x : ℤ)
          → pos 4000 ≤ℤ x
          → x <ℤ pos 11200
          → pos 5000 ≤ℤ x
          → x <ℤ pos 5900
          → covers x resp.intervals ≡ true))
    ⊎ (get_intervals memory two_hours (pos 6000) ticked_thrice ≡ returned (err db_error))
unfolding ◌-ℤ◌
ticks_answered_example =
    ticks_answered memory memory_rules w_tick w_tick (pos 5000) (pos 5900)
      (record { now = pos 5000 }) (record { now = pos 5900 }) empty_server ticked_server
      ticked_twice ticked_thrice ticked_thrice two_hours (pos 6000) empty_server-IsServer
      w-IsVerbatim w-IsVerbatim ticks_once a-Runs ticks_again rests (omega arith) refl
      thrice-AreTicks (omega arith) (omega arith, omega arith) (omega arith, omega arith)
      thrice-ReadsInOrder
