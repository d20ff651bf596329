-- ===== src/Tests/Scanning.antt =====
-- Tests of the watcher, on a directory /r that holds a directory a, with a file g, and a file f.
use golang_time_tracker.Base.{
  ℕ, ◌+◌, ◌≤◌, ◌≡◌, refl, Bool, true, false, ◌||◌, List, [], ◌∷◌, ◌++◌, none, some, arith, length,
  if◌then◌else◌,
}
use golang_time_tracker.Base.Int.{ℤ, pos, negsuc}
use golang_time_tracker.Base.Text.{Text, codes, text_eq, has_prefix}
use golang_time_tracker.Base.Sorting.{has_text}
use golang_time_tracker.Base.Paths.{clean, path_join}
use golang_time_tracker.Watcher.{
  WatchEvent, event_create, event_delete, ChildInfo, success, Os, finished, ◌>>=◌, wd_insert,
  wd_lookup, set_insert, set_delete, FileWatcher, contains,
}
use golang_time_tracker.Watcher.Scan.{
  is_skipped, call_back, add_children, close_after, add_opened, add_watched, add_with, apply_with,
  apply_watch_event, add,
}
use golang_time_tracker.Watcher.Scan.Static.{
  Static, entry_events, entries_events, tree_events, HasDepth, dir_paths, paths, Fresh, last_of,
  Scanned,
}
use golang_time_tracker.Watcher.Scan.Tree.{add-Scanned}
use golang_time_tracker.Watcher.Scan.Stale.{add-apply_watch_event, apply_watch_event-stale}
use golang_time_tracker.Watcher.Events.{
  uint32_at, byte_at, first_event, for_each_event, event_loop, name_max,
}
use golang_time_tracker.Watcher.Events.Framing.{encode, first_event-encode, IsInt32}
use golang_time_tracker.Watcher.Events.Chunks.{for_each_event-append}
use golang_time_tracker.Watcher.Run.{
  Round, nothing_to_read, waiting, returned_nil, consume, run, close_fd, watch_from, run_round,
  watch_path,
}
use golang_time_tracker.Watcher.Run.Reads.{reads, concat, run-consume}
use golang_time_tracker.Watcher.Run.Ends.{watch_path-scan}

abbrev pub entries : Text → List ChildInfo
entries p =
    if text_eq p (codes "/r")
    then record { name = codes "a"; is_dir = true }
      ∷ record { name = codes ".git"; is_dir = true }
      ∷ record { name = codes "f"; is_dir = false }
      ∷ []
    else if text_eq p (codes "/r/a")
    then record { name = codes "g"; is_dir = false } ∷ []
    else []

-- An operating system that nothing changes.
abbrev pub still : Os
still = record {
  Kernel = Unit {0};
  stat = λ p k. (success true, k);
  inotify_init = λ k. (success record {}, k);
  add_watch = λ p k. (success (pos (length p)), k);
  open_dir = λ p k. (success record {}, k);
  read_dir = λ p k. (success (entries p), k);
  close_dir = λ p k. (success record {}, k);
  close = λ k. (success record {}, k);
}

abbrev accept : List WatchEvent → WatchEvent → Bool
accept es e = true

abbrev still-Static : Static still accept entries
still-Static = record {
  wd = λ p. pos (length p);
  watches = λ p k. refl;
  opens = λ p k. refl;
  reads = λ p k. refl;
  closes = λ p k. refl;
  accepts = λ es e. refl;
}

abbrev fresh_watcher : FileWatcher still
fresh_watcher = record {
  root_dir = codes "/r";
  wd_to_path = [];
  watched_dirs = [];
  called = [];
  kernel = record {};
}

pub entries-HasDepth : HasDepth entries 2 (codes "/r")
unfolding HasDepth text_eq path_join is_skipped contains has_prefix
entries-HasDepth = (λ v d. (λ v' d'. cc, tt), (λ v d. cc, (λ v d. cc, tt)))

-- The events of the scan, in their order.
abbrev pub found : List WatchEvent
found =
    record { event_type = event_create; is_dir = true; path = codes "/r/a" }
    ∷ record { event_type = event_create; is_dir = false; path = codes "/r/a/g" }
    ∷ record { event_type = event_create; is_dir = false; path = codes "/r/f" }
    ∷ []

pub scan_found : tree_events entries 2 (codes "/r") ≡ found
unfolding tree_events entries_events entry_events is_skipped contains has_prefix text_eq path_join
scan_found = refl

pub found-Fresh :
    Fresh (λ k. false || text_eq (codes "/r") k) (paths (tree_events entries 2 (codes "/r")))
unfolding Fresh tree_events entries_events entry_events is_skipped contains has_prefix text_eq
    path_join
found-Fresh = (refl, (refl, (refl, tt)))

a_found : has_text (codes "/r/a") (dir_paths (tree_events entries 2 (codes "/r"))) ≡ true
unfolding dir_paths tree_events entries_events entry_events is_skipped contains has_prefix text_eq
    path_join
a_found = refl

abbrev root_event : WatchEvent
root_event = record { event_type = event_create; is_dir = true; path = codes "/r" }

add-Scanned_example :
    Scanned still still-Static.wd fresh_watcher
      (tree_events entries 2 (codes "/r"))
      (codes "/r" ∷ dir_paths (tree_events entries 2 (codes "/r")))
      (add still accept 3 root_event fresh_watcher)
add-Scanned_example =
    add-Scanned still accept entries still-Static 2 3 (codes "/r") true fresh_watcher (omega arith)
      entries-HasDepth found-Fresh

abbrev a_event : WatchEvent
a_event = record { event_type = event_create; is_dir = true; path = codes "/r/a" }

add-apply_watch_event_example :
    (add still accept 3 root_event fresh_watcher >>= apply_watch_event still accept 4 a_event)
    ≡ add still accept 3 root_event fresh_watcher
add-apply_watch_event_example =
    add-apply_watch_event still accept entries still-Static 2 3 (codes "/r") (codes "/r/a") true
      true fresh_watcher (omega arith) entries-HasDepth found-Fresh a_found

-- A watcher of /r, /r/a and /r/a/b
abbrev deep_watcher : FileWatcher still
deep_watcher = record {
  root_dir = codes "/r";
  wd_to_path = (pos 1, codes "/r") ∷ (pos 2, codes "/r/a") ∷ (pos 3, codes "/r/a/b") ∷ [];
  watched_dirs = codes "/r" ∷ codes "/r/a" ∷ codes "/r/a/b" ∷ [];
  called = [];
  kernel = record {};
}

abbrev a_deleted : WatchEvent
a_deleted = record { event_type = event_delete; is_dir = true; path = codes "/r/a" }

b_watched : has_text (codes "/r/a/b") deep_watcher.watched_dirs ≡ true
unfolding text_eq
b_watched = refl

not_b : text_eq (codes "/r/a") (codes "/r/a/b") ≡ false
unfolding text_eq
not_b = refl

apply_watch_event-stale_example :
    (apply_watch_event still accept 2 a_deleted deep_watcher
      >>= apply_watch_event still accept 2
          (record { event_type = event_create; is_dir = true; path = codes "/r/a/b" }))
    ≡ finished (record deep_watcher {
      watched_dirs = set_delete (codes "/r/a") deep_watcher.watched_dirs;
      called = a_deleted ∷ [];
    })
apply_watch_event-stale_example =
    apply_watch_event-stale still accept 1 (codes "/r/a") (codes "/r/a/b") true true deep_watcher
      b_watched not_b refl

-- The creation of the file x in /r, with five bytes that pad its name.
abbrev x_created : List ℕ
x_created = encode (pos 1) 256 0 (codes "x") 15

minus_one : IsInt32 (negsuc 0)
unfolding IsInt32
minus_one = omega arith

first_event-encode_example :
    first_event (encode (negsuc 0) 256 0 (codes "x") 15 ++ x_created)
    ≡ some (record {
      event = record { wd = negsuc 0; mask = 256; len = 16 };
      name = codes "x";
      rest = x_created;
    })
first_event-encode_example =
    first_event-encode (negsuc 0) 256 0 (codes "x") 15 x_created minus_one (omega arith)
      (omega arith) (refl, tt)

for_each_event-append_example :
    for_each_event still (apply_watch_event still accept 2) (x_created ++ 1 ∷ 0 ∷ []) deep_watcher
    ≡ (for_each_event still (apply_watch_event still accept 2) x_created deep_watcher >>= λ r.
        for_each_event still (apply_watch_event still accept 2) (r.1 ++ (1 ∷ 0 ∷ [])) r.0)
for_each_event-append_example =
    for_each_event-append still (apply_watch_event still accept 2) x_created (1 ∷ 0 ∷ [])
      deep_watcher

run-consume_example :
    run still accept 2 (reads (x_created ∷ x_created ∷ [])) (waiting (deep_watcher, []))
    ≡ consume still accept 2 (([] ++ x_created) ++ concat (x_created ∷ [])) deep_watcher
run-consume_example = run-consume still accept 2 x_created (x_created ∷ []) deep_watcher []

left_over :
    for_each_event still (apply_watch_event still accept 2) (1 ∷ 0 ∷ []) deep_watcher
    ≡ finished (deep_watcher, 1 ∷ 0 ∷ [])
unfolding for_each_event first_event event_loop
left_over = refl

announced : uint32_at (1 ∷ 0 ∷ []) 12 ≤ name_max + 1
unfolding uint32_at byte_at
announced = omega arith

abbrev pub two_rounds : List Round
two_rounds =
    record { is_done = false; poll = nothing_to_read }
    ∷ record { is_done = true; poll = nothing_to_read }
    ∷ []

pub root_clean : clean (codes "/r") ≡ codes "/r"
unfolding clean text_eq
root_clean = refl

watch_path-scan_example :
    (w : FileWatcher still) × ((watch_path still accept 2 (codes "/r") two_rounds (record {})
        ≡ close_fd still accept 2 (run still accept 2 two_rounds (waiting (w, []))))
      × ((w.called ≡ tree_events entries 2 (clean (codes "/r")))
          × (((p : Text)
                → has_text p w.watched_dirs
                  ≡ has_text p
                      (clean (codes "/r") ∷ dir_paths (tree_events entries 2 (clean (codes "/r")))))
              × ((i : ℤ)
                  → wd_lookup i w.wd_to_path
                    ≡ last_of
                        (λ p. pos (length p))
                        i
                        (clean (codes "/r")
                          ∷ dir_paths (tree_events entries 2 (clean (codes "/r"))))
                        none))))
watch_path-scan_example =
    watch_path-scan still accept entries still-Static 2 2 (codes "/r") true two_rounds (record {})
      refl refl (omega arith) (rw root_clean entries-HasDepth) (rw root_clean found-Fresh)

abbrev last_watcher : FileWatcher still
last_watcher = record {
  root_dir = codes "/r";
  wd_to_path = (pos 2, codes "/r") ∷ (pos 4, codes "/r/a") ∷ [];
  watched_dirs = codes "/r" ∷ codes "/r/a" ∷ [];
  called = found;
  kernel = record {};
}

returns : watch_path still accept 2 (codes "/r") two_rounds (record {}) ≡ returned_nil last_watcher
unfolding watch_path watch_from close_fd run run_round add add_with add_watched add_opened
    close_after add_children text_eq clean is_skipped contains has_prefix apply_watch_event
    apply_with call_back set_insert wd_insert path_join
returns = refl
