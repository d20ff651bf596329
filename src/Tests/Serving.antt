-- ===== src/Tests/Serving.antt =====
-- Tests of the daemon's calls, on a database in memory.
use golang_time_tracker.Base.{
  ◌≡◌, refl, ◌⊎◌, true, false, [], ◌∷◌, none, some, arith, get_elem?, Bool-cases, inl, inr,
}
use golang_time_tracker.Base.Int.{pos}
use golang_time_tracker.Base.Text.{codes, text_eq, text_eq_iff, text_lt}
use golang_time_tracker.Base.Table.{insert, lookup}
use golang_time_tracker.Server.Running.{AreRunning}
use golang_time_tracker.Escape.{escape, unescape}
use golang_time_tracker.Client.{TickRequest, WatchRequest}
use golang_time_tracker.Database.Memory.{memory, memory_rules, run}
use golang_time_tracker.Database.Memory.Rows.{sort_rows}
use golang_time_tracker.Server.State.{db_error, ok, err, Server, returned}
use golang_time_tracker.Server.Watches.{align_watches, create}
use golang_time_tracker.Server.Handlers.{
  get_db_watches, delete_excess, sync_watches, watch, tick, lock_db, add_watch_to_db, sync_added,
  parse_watches, conflict, insert_new_watch,
}
use golang_time_tracker.Server.Steps.{
  Hangs, IsServer, IsSynced, sync_watches-returns, sync_error-Hangs,
}
use golang_time_tracker.Server.Adding.{Ends, watch-Ends, tick_once}
use golang_time_tracker.Server.Recording.{Choices, record_writes_in_db}
use golang_time_tracker.Server.Recording.Batching.{written, events, events_batched}
use golang_time_tracker.Http.{post, json_string, Response, http_watch, http_clear, prepare_watch}
use golang_time_tracker.Base.Paths.{clean, is_abs}
use golang_time_tracker.Http.Safety.{ClearEnds, clear_ends, relative_dir_watched}
use golang_time_tracker.Tests.Data.{
  two_watches, a-IsVerbatim, b-IsVerbatim, c-IsVerbatim, w-IsVerbatim, running, empty_server,
  unreadable, unreadable_server,
}

two_watches-AreRunning : AreRunning two_watches
unfolding lookup
two_watches-AreRunning k i e = elim (Bool-cases (text_eq (codes "/a") k)) [
  | inl p ↦
      let q : some 0 ≡ some i = rw p at e in
      let first : 0 ≡ i = cc in
      rw (← first) (running (codes "/a"), refl, (text_eq_iff (codes "/a") k).0 p, refl)
  | inr p ↦ elim (Bool-cases (text_eq (codes "/b") k)) [
    | inl r ↦
        let q : some 1 ≡ some i = rw (p, r) at e in
        let second : 1 ≡ i = cc in
        rw (← second) (running (codes "/b"), refl, (text_eq_iff (codes "/b") k).0 r, refl)
    | inr r ↦ (let q : none ≡ some i = rw (p, r) at e in cc)
  ]
]

pub empty_server-IsServer : IsServer memory memory_rules empty_server
unfolding text_eq memory_rules
empty_server-IsServer = record {
  table = record { verbatim = tt; apart = tt; labels = tt };
  map_keys = (refl, (refl, tt));
  running = two_watches-AreRunning;
  named = ((a-IsVerbatim, w-IsVerbatim), ((b-IsVerbatim, w-IsVerbatim), tt));
  free = refl;
  gap_nonneg = omega arith;
}

abbrev pub watch_c : WatchRequest
watch_c = record { label = codes "w"; dir = codes "/c" }

watch-Ends_example :
    Ends memory memory_rules watch_c
      (pos 5000)
      empty_server
      (watch memory watch_c (pos 5000) empty_server)
watch-Ends_example =
    watch-Ends memory memory_rules watch_c (pos 5000) empty_server empty_server-IsServer
      c-IsVerbatim w-IsVerbatim

sync_watches-returns_example :
    ((s' : Server memory) × (sync_watches memory empty_server ≡ returned (s', ok tt))
      × IsSynced memory memory_rules empty_server s')
    ⊎ (get_db_watches memory (delete_excess memory empty_server.db) ≡ none)
sync_watches-returns_example =
    sync_watches-returns memory memory_rules empty_server empty_server-IsServer

no_watches_read : get_db_watches unreadable (delete_excess unreadable unreadable_server.db) ≡ none
unfolding get_db_watches
no_watches_read = refl

sync_error-Hangs_example :
    (s' : Server unreadable) × (sync_watches unreadable unreadable_server
      ≡ returned (s', err db_error))
    × Hangs unreadable s'
sync_error-Hangs_example = sync_error-Hangs unreadable unreadable_server refl no_watches_read

abbrev pub w_tick : TickRequest
w_tick = record { label = codes "w" }

abbrev pub ticked_server : Server memory
ticked_server = record empty_server {
  db = record { ticks = record { time = pos 5000; labels = codes "w" } ∷ []; watches = [] };
}

pub ticks_once :
    tick memory (some w_tick) (pos 5000) empty_server
    ≡ returned (ticked_server, ok (record { now = pos 5000 }))
unfolding tick lock_db run escape
ticks_once = refl

tick_once_example :
    tick memory (some w_tick) (pos 5000) ticked_server ≡ returned (ticked_server, err db_error)
tick_once_example =
    tick_once memory memory_rules w_tick w_tick (pos 5000) empty_server ticked_server
      (record { now = pos 5000 }) w-IsVerbatim w-IsVerbatim refl ticks_once

abbrev pub commits : Choices
commits = record { begins = true; commits = true; ticker_first = true }

events_batched_example :
    (s' : Server memory) × (record_writes_in_db memory commits 0
        (pos 5000)
        (events memory 0 2 empty_server)
      ≡ returned (s', true))
    × (s'.db ≡ written memory true (running (codes "/a")) (pos 5000) empty_server.db)
    × (get_elem? s'.watches.heap 0 ≡ some (running (codes "/a")))
    × (record_writes_in_db memory commits 0 (pos 5003) s' ≡ returned (s', true))
events_batched_example =
    events_batched memory commits commits 0 2 (pos 5000) (pos 5003) empty_server
      (running (codes "/a")) refl refl refl refl

clear_ends_example :
    (s' : Server memory) × (w : Response) × (http_clear memory post
        (some ((codes "confirm", json_string (codes "yes")) ∷ []))
        empty_server
      ≡ returned (s', w))
    × ClearEnds memory post
        (some ((codes "confirm", json_string (codes "yes")) ∷ []))
        empty_server
        s'
        w
clear_ends_example =
    clear_ends memory post (some ((codes "confirm", json_string (codes "yes")) ∷ [])) empty_server
      refl

abbrev watch_relative : WatchRequest
watch_relative = record { label = codes "w"; dir = codes "c" }

c_is_relative : is_abs (clean watch_relative.dir) ≡ false
unfolding clean text_eq
c_is_relative = refl

abbrev idle_server : Server memory
idle_server = record empty_server { watches = record { heap = []; watches = [] } }

-- The server once the relative directory is watched.
abbrev relative_server : Server memory
relative_server = record empty_server {
  db = record {
    ticks = [];
    watches = record { last_write = pos 5000; dir = codes "c"; label = codes "w" } ∷ [];
  };
  watches = record { heap = running (codes "c") ∷ []; watches = (codes "c", 0) ∷ [] };
}

relative_watch :
    watch memory (prepare_watch watch_relative) (pos 5000) idle_server
    ≡ returned (relative_server, ok tt)
unfolding watch add_watch_to_db sync_added sync_watches lock_db get_db_watches parse_watches
    conflict insert_new_watch delete_excess run sort_rows escape unescape text_eq text_lt clean
    prepare_watch align_watches create insert
relative_watch = refl

relative_dir_watched_example :
    (w : Response) × (http_watch memory post (some watch_relative) (pos 5000) idle_server
      ≡ returned (relative_server, w))
    × (w.status ≡ some 400)
relative_dir_watched_example =
    relative_dir_watched memory watch_relative (pos 5000) idle_server relative_server (ok tt)
      c_is_relative relative_watch
