-- ===== src/Watcher/Run/Ends.antt =====
-- How Watch of pkg/watcher/watcher.go begins and how it comes to return.
use golang_time_tracker.Base.{
  ◌≤◌, ℕ, ◌≡◌, refl, ap, none, Bool, true, false, ◌||◌, List, [], ◌∷◌, ◌++◌, arith, Bool-cases, inl,
  inr,
}
use golang_time_tracker.Base.Int.{ℤ}
use golang_time_tracker.Base.Text.{Text, text_eq}
use golang_time_tracker.Base.Sorting.{has_text}
use golang_time_tracker.Base.Paths.{clean}
use golang_time_tracker.Watcher.{
  WatchEvent, ChildInfo, Sys, success, not_exist, sys_error, Os, WatchError, Ended, finished,
  failed, panicked, out_of_fuel, wd_lookup, FileWatcher,
}
use golang_time_tracker.Watcher.Scan.Static.{
  Static, tree_events, HasDepth, dir_paths, paths, Fresh, last_of,
}
use golang_time_tracker.Watcher.Scan.Tree.{add-Scanned}
use golang_time_tracker.Watcher.Events.{Reading}
use golang_time_tracker.Watcher.Run.{
  Poll, poll_failed, read_failed, nothing_to_read, read_bytes, Round, Running, waiting,
  returned_nil, returned_error, went_panicking, ran_out, running_of, consume, run_round, run,
  close_fd, watch_from, watch_path,
}

-- The context is done at the start of one of the rounds.
unfoldable is_cancelled : List Round → Bool
is_cancelled [] = false
is_cancelled (round ∷ rounds) = round.is_done || is_cancelled rounds

module _ (O : Os) where
  abbrev is_nil : Running O → Bool
  is_nil (waiting r) = false
  is_nil (returned_nil w) = true
  is_nil (returned_error e w) = false
  is_nil went_panicking = false
  is_nil ran_out = false

  running_of-not_nil : (o : Ended (Reading O)) → is_nil (running_of O o) ≡ false
  unfolding running_of
  running_of-not_nil (finished r) = refl
  running_of-not_nil (failed e (w, b)) = refl
  running_of-not_nil panicked = refl
  running_of-not_nil out_of_fuel = refl

module _ (O : Os) (cb : List WatchEvent → WatchEvent → Bool) (fuel : ℕ) where
  run_round-not_nil :
      (round : Round) (r : Reading O)
      → round.is_done ≡ false
      → is_nil O (run_round O cb fuel round r) ≡ false
  unfolding run_round consume
  run_round-not_nil round (w, left) h = rw (run_round, h) (answered round.poll)
    where
      answered :
          (poll : Poll)
          → is_nil O (elim poll [
            | poll_failed ↦ returned_error WatchError.poll_error w
            | read_failed ↦ returned_error WatchError.read_error w
            | nothing_to_read ↦ waiting (w, left)
            | read_bytes bytes ↦ consume O cb fuel (left ++ bytes) w
          ])
            ≡ false
      answered poll_failed = refl
      answered read_failed = refl
      answered nothing_to_read = refl
      answered (read_bytes bytes) = running_of-not_nil O _

  run-nil :
      (rounds : List Round) (r : Running O)
      → is_nil O r ≡ false
      → is_nil O (run O cb fuel rounds r) ≡ true
      → is_cancelled rounds ≡ true
  unfolding run is_cancelled
  run-nil [] (waiting r) h k = cc
  run-nil (round ∷ rounds) (waiting r) h k = elim (Bool-cases round.is_done) [
    | inl d ↦ ground (arith, d)
    | inr d ↦
        let later : is_cancelled rounds ≡ true =
          run-nil rounds (run_round O cb fuel round r) (run_round-not_nil round r d) k in
        ground (arith, later)
  ]
  run-nil [] (returned_nil w) h k = cc
  run-nil (round ∷ rounds) (returned_nil w) h k = cc
  run-nil [] (returned_error e w) h k = cc
  run-nil (round ∷ rounds) (returned_error e w) h k = cc
  run-nil [] went_panicking h k = cc
  run-nil (round ∷ rounds) went_panicking h k = cc
  run-nil [] ran_out h k = cc
  run-nil (round ∷ rounds) ran_out h k = cc

  close_fd-nil : (r : Running O) → is_nil O (close_fd O cb fuel r) ≡ true → is_nil O r ≡ true
  unfolding close_fd
  close_fd-nil (waiting r) k = k
  close_fd-nil (returned_nil w) k = refl
  close_fd-nil (returned_error e w) k = k
  close_fd-nil went_panicking k = k
  close_fd-nil ran_out k = k

  run-started :
      (rounds : List Round) (r : Running O)
      → is_nil O r ≡ false
      → is_nil O (close_fd O cb fuel (run O cb fuel rounds r)) ≡ true
      → is_cancelled rounds ≡ true
  run-started rounds r h k = run-nil rounds r h (close_fd-nil (run O cb fuel rounds r) k)

  watch_from-nil :
      (root : Text) (d : Bool) (rounds : List Round) (k : O.Kernel)
      → is_nil O (watch_from O cb fuel root d rounds k) ≡ true
      → is_cancelled rounds ≡ true
  unfolding watch_from
  watch_from-nil root d rounds k h = started _ h
    where
      started :
          (o : Ended (FileWatcher O))
          → is_nil O (
              close_fd O cb fuel (
                run O cb fuel rounds (elim o [
                  | finished w ↦ waiting (w, [])
                  | failed e w ↦ returned_error e w
                  | panicked ↦ went_panicking
                  | out_of_fuel ↦ ran_out
                ])))
            ≡ true
          → is_cancelled rounds ≡ true
      started (finished w) h = run-started rounds (waiting (w, [])) refl h
      started (failed e w) h = run-started rounds (returned_error e w) refl h
      started panicked h = run-started rounds went_panicking refl h
      started out_of_fuel h = run-started rounds ran_out refl h

  -- Watch returns without an error only if its context is done at the start of one of the rounds.
  watch_path-cancelled :
      (path : Text) (rounds : List Round) (k : O.Kernel) (w : FileWatcher O)
      → watch_path O cb fuel path rounds k ≡ returned_nil w
      → is_cancelled rounds ≡ true
  unfolding watch_path
  watch_path-cancelled path rounds k w h = stated _ (ap (is_nil O) h)
    where
      none_yet : O.Kernel → FileWatcher O
      none_yet l = record {
        root_dir = clean path;
        wd_to_path = [];
        watched_dirs = [];
        called = [];
        kernel = l;
      }

      inited :
          (d : Bool) (init : Sys (Unit {0}) × O.Kernel)
          → is_nil O (elim init.0 [
            | success _ ↦ watch_from O cb fuel (clean path) d rounds init.1
            | not_exist ↦ returned_error WatchError.inotify_error (none_yet init.1)
            | sys_error ↦ returned_error WatchError.inotify_error (none_yet init.1)
          ])
            ≡ true
          → is_cancelled rounds ≡ true
      inited d (success _, l) h = watch_from-nil (clean path) d rounds l h
      inited d (not_exist, l) h = cc
      inited d (sys_error, l) h = cc

      stated :
          (info : Sys Bool × O.Kernel)
          → is_nil O (elim info.0 [
            | success is_dir ↦ elim (O.inotify_init info.1).0 [
              | success _ ↦
                  watch_from O cb fuel (clean path) is_dir rounds (O.inotify_init info.1).1
              | not_exist ↦
                  returned_error WatchError.inotify_error (none_yet (O.inotify_init info.1).1)
              | sys_error ↦
                  returned_error WatchError.inotify_error (none_yet (O.inotify_init info.1).1)
            ]
            | not_exist ↦ returned_error WatchError.could_not_stat (none_yet info.1)
            | sys_error ↦ returned_error WatchError.could_not_stat (none_yet info.1)
          ])
            ≡ true
          → is_cancelled rounds ≡ true
      stated (success d, l) h = inited d (O.inotify_init l) h
      stated (not_exist, l) h = cc
      stated (sys_error, l) h = cc

module _ (O : Os) (cb : List WatchEvent → WatchEvent → Bool) (listing : Text → List ChildInfo)
    (S : Static O cb listing) where
  -- Watch on a tree of n levels that does not change before the first round, with a fuel of n or
  -- more: it gives the callback an event for each entry that is there and that a scan does not
  -- leave out for its name, but none for the directory itself, has that and all such directories in
  -- it in its set of watched directories, and knows by each watch descriptor the last of these that
  -- has got it; if the system calls and the callback succeed, and no path comes twice.
  pub watch_path-scan :
      (n fuel : ℕ) (path : Text) (d : Bool) (rounds : List Round) (k : O.Kernel)
      → (O.stat (clean path) k).0 ≡ success d
      → (O.inotify_init (O.stat (clean path) k).1).0 ≡ success record {}
      → n ≤ fuel
      → HasDepth listing n (clean path)
      → Fresh (text_eq (clean path)) (paths (tree_events listing n (clean path)))
      → (w : FileWatcher O) × ((watch_path O cb fuel path rounds k
            ≡ close_fd O cb fuel (run O cb fuel rounds (waiting (w, []))))
          × ((w.called ≡ tree_events listing n (clean path))
              × (((p : Text)
                    → has_text p w.watched_dirs
                      ≡ has_text p (clean path ∷ dir_paths (tree_events listing n (clean path))))
                  × ((i : ℤ)
                      → wd_lookup i w.wd_to_path
                        ≡ last_of S.wd i
                            (clean path ∷ dir_paths (tree_events listing n (clean path)))
                            none))))
  unfolding watch_path watch_from wd_lookup
  watch_path-scan n fuel path d rounds k is_there inited le deep fresh =
      let l = (O.inotify_init (O.stat (clean path) k).1).1 in
      let (w, (end, (said, seen))) =
        add-Scanned O cb listing S n fuel (clean path) d
          (record {
            root_dir = clean path;
            wd_to_path = [];
            watched_dirs = [];
            called = [];
            kernel = l;
          })
          le deep fresh in
      (w, (rw (watch_path, is_there, inited, watch_from, end) refl, (said, seen)))
