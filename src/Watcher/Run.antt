-- ===== src/Watcher/Run.antt =====
-- pkg/watcher/watcher.go: run and Watch. What happens from one round of the loop to the next, and
-- what the system calls of a round answer, is chosen from outside: a run is a sequence of rounds.
-- Without a doneCtx no round is done; that a read has room for an event only as long as the buffer
-- is not full is left to the rounds.
pub mod Reads
pub mod Ends
use golang_time_tracker.Base.{ℕ, Bool, List, [], ◌∷◌, ◌++◌, if◌then◌else◌}
use golang_time_tracker.Base.Text.{Text}
use golang_time_tracker.Base.Paths.{clean}
use golang_time_tracker.Watcher.{
  WatchEvent, event_create, success, not_exist, sys_error, Os, WatchError, could_not_stat,
  inotify_error, poll_error, read_error, close_error, Ended, finished, failed, panicked,
  out_of_fuel, FileWatcher,
}
use golang_time_tracker.Watcher.Scan.{add, apply_watch_event}
use golang_time_tracker.Watcher.Events.{Reading, for_each_event}

-- What unix.Poll and, if there is something to read, unix.Read answer.
pub data Poll : Type 0 where
  poll_failed read_failed nothing_to_read : Poll
  read_bytes : List ℕ → Poll

-- A round: whether the context is done when it starts, and the answers.
pub record Round : Type 0 where
  pub is_done : Bool
  pub poll : Poll

-- How far a run has come: it has returned, or waits for the next round.
pub data Running (O : Os) : Type 0 where
  waiting : Reading O → Running O
  returned_nil : FileWatcher O → Running O
  returned_error : WatchError → FileWatcher O → Running O
  went_panicking ran_out : Running O

-- Where forEachEvent leaves a run.
unfoldable pub running_of : (O : Os) → Ended (Reading O) → Running O
running_of O (finished r) = waiting r
running_of O (failed e (w, _)) = returned_error e w
running_of O panicked = went_panicking
running_of O out_of_fuel = ran_out

module _ (O : Os) (cb : List WatchEvent → WatchEvent → Bool) (fuel : ℕ) where
  unfoldable pub consume : List ℕ → FileWatcher O → Running O
  consume buf w = running_of O (for_each_event O (apply_watch_event O cb fuel) buf w)

  -- A round of the loop of run, with the bytes left over from the last.
  unfoldable pub run_round : Round → Reading O → Running O
  run_round round (w, left) = if round.is_done then returned_nil w else elim round.poll [
    | poll_failed ↦ returned_error poll_error w
    | read_failed ↦ returned_error read_error w
    | nothing_to_read ↦ waiting (w, left)
    | read_bytes bytes ↦ consume (left ++ bytes) w
  ]

  unfoldable pub run : List Round → Running O → Running O
  run [] (waiting r) = waiting r
  run (round ∷ rounds) (waiting r) = run rounds (run_round round r)
  run rounds (returned_nil w) = returned_nil w
  run rounds (returned_error e w) = returned_error e w
  run rounds went_panicking = went_panicking
  run rounds ran_out = ran_out

  -- The deferred unix.Close(fd).
  unfoldable pub close_fd : Running O → Running O
  close_fd (waiting r) = waiting r
  close_fd (returned_nil w) =
      let r = O.close w.kernel in
      let w' : FileWatcher O = record w { kernel = r.1 } in
      elim r.0 [
        | success _ ↦ returned_nil w'
        | not_exist ↦ returned_error close_error w'
        | sys_error ↦ returned_error close_error w'
      ]
  close_fd (returned_error e w) = returned_error e (record w { kernel = (O.close w.kernel).1 })
  close_fd went_panicking = went_panicking
  close_fd ran_out = ran_out

  -- Watch from w.add on.
  unfoldable pub watch_from : Text → Bool → List Round → O.Kernel → Running O
  watch_from path is_dir rounds kernel =
      let w : FileWatcher O = record {
        root_dir = path;
        wd_to_path = [];
        watched_dirs = [];
        called = [];
        kernel = kernel;
      } in
      let added : Running O =
        elim (add O cb fuel (record { event_type = event_create; is_dir = is_dir; path = path })
          w) [
            | finished w' ↦ waiting (w', [])
            | failed e w' ↦ returned_error e w'
            | panicked ↦ went_panicking
            | out_of_fuel ↦ ran_out
          ] in
      close_fd (run rounds added)

  -- Watch; an error before the inotify instance is there leaves no watcher to close.
  unfoldable pub watch_path : Text → List Round → O.Kernel → Running O
  watch_path path rounds kernel =
      let root = clean path in
      let none_yet : O.Kernel → FileWatcher O = λ k. record {
        root_dir = root;
        wd_to_path = [];
        watched_dirs = [];
        called = [];
        kernel = k;
      } in
      let info = O.stat root kernel in
      elim info.0 [
        | success is_dir ↦
            let init = O.inotify_init info.1 in
            elim init.0 [
              | success _ ↦ watch_from root is_dir rounds init.1
              | not_exist ↦ returned_error inotify_error (none_yet init.1)
              | sys_error ↦ returned_error inotify_error (none_yet init.1)
            ]
        | not_exist ↦ returned_error could_not_stat (none_yet info.1)
        | sys_error ↦ returned_error could_not_stat (none_yet info.1)
      ]
