-- ===== src/Tests/Starting.antt =====
-- Tests of the goroutines of a watch together, on a database in memory and a file system that
-- nothing changes.
use golang_time_tracker.Base.{◌≡◌, ◌≢◌, refl, false, true, [], ◌∷◌, none, arith, length}
use golang_time_tracker.Base.Int.{pos}
use golang_time_tracker.Base.Text.{codes}
use golang_time_tracker.Escape.{escape}
use golang_time_tracker.Watcher.{FileWatcher, event_create}
use golang_time_tracker.Watcher.Scan.Static.{Static}
use golang_time_tracker.Watcher.Run.{waiting, run, close_fd, watch_path}
use golang_time_tracker.Database.Memory.{memory, memory_rules, put_tick, find_tick}
use golang_time_tracker.Database.Memory as Memory
use golang_time_tracker.Server.State.{Server, returned}
use golang_time_tracker.Server.Recording.{record_write, record_writes_in_db}
use golang_time_tracker.Server.Watching.{handled, handle_event_error, IsRecorded, scan-IsRecorded}
use golang_time_tracker.Tests.Data.{running, gap, w-IsVerbatim, r-IsVerbatim}
use golang_time_tracker.Tests.Serving.{commits}
use golang_time_tracker.Tests.Scanning.{
  entries, still, entries-HasDepth, scan_found, found-Fresh, root_clean, two_rounds,
}

-- A server that has just made a watch of /r.
abbrev r_server : Server memory
r_server = record {
  max_event_gap = gap;
  db = record {
    ticks = [];
    watches = record { last_write = pos 0; dir = codes "/r"; label = codes "w" } ∷ [];
  };
  db_locked = false;
  watches = record { heap = running (codes "/r") ∷ []; watches = (codes "/r", 0) ∷ [] };
}

still-Static : Static still handle_event_error entries
unfolding handle_event_error
still-Static = record {
  wd = λ p. pos (length p);
  watches = λ p k. refl;
  opens = λ p k. refl;
  reads = λ p k. refl;
  closes = λ p k. refl;
  accepts = λ es e. refl;
}

writes : record_write memory (running (codes "/r")) (pos 5000) r_server.db ≢ none
unfolding record_write Memory.run escape put_tick find_tick
writes h = cc

scan-IsRecorded_example :
    (v : FileWatcher still) × (s' : Server memory) × (watch_path still handle_event_error 2
        (codes "/r")
        two_rounds
        (record {})
      ≡ close_fd still handle_event_error 2
          (run still handle_event_error 2 two_rounds (waiting (v, []))))
    × (record_writes_in_db memory commits 0 (pos 5000) (handled memory 0 v.called r_server)
        ≡ returned (s', true))
    × IsRecorded memory memory_rules 0 (running (codes "/r")) (pos 5000) r_server s'
scan-IsRecorded_example =
    scan-IsRecorded memory memory_rules still entries still-Static 2 2 true two_rounds (record {})
      commits 0 (pos 5000) r_server (running (codes "/r"))
      (record { event_type = event_create; is_dir = true; path = codes "/r/a" })
      (record { event_type = event_create; is_dir = false; path = codes "/r/a/g" }
        ∷ record { event_type = event_create; is_dir = false; path = codes "/r/f" }
        ∷ [])
      refl refl (omega arith) (rw root_clean entries-HasDepth) (rw root_clean found-Fresh)
      (rw root_clean scan_found) refl refl refl refl refl (r-IsVerbatim, w-IsVerbatim) refl writes
