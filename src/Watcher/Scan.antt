-- ===== src/Watcher/Scan.antt =====
-- pkg/watcher/watcher.go: add, which watches a directory and scans it, and applyWatchEvent, which
-- add calls for each entry. The recursion takes fuel.
pub mod Static
pub mod Depth
pub mod Entries
pub mod Tree
pub mod Stale
use golang_time_tracker.Base.{ℕ, zero, suc, Bool, ◌||◌, not, List, [], ◌∷◌, ◌++◌, if◌then◌else◌}
use golang_time_tracker.Base.Text.{Text, codes, text_eq, has_prefix}
use golang_time_tracker.Base.Sorting.{has_text}
use golang_time_tracker.Base.Paths.{path_join}
use golang_time_tracker.Watcher.{
  WatchEvent, event_create, event_delete, event_modify, event_ignore, ChildInfo, success, not_exist,
  sys_error, Os, WatchError, could_not_add, could_not_open, could_not_read, could_not_close,
  callback_error, Ended, finished, failed, panicked, out_of_fuel, ◌>>=◌, wd_insert, set_insert,
  set_delete, FileWatcher, contains,
}

-- The names that a scan leaves out.
unfoldable pub is_skipped : Text → Bool
is_skipped child = contains child (codes ".git") || has_prefix child (codes "vendor")

-- The synthetic event for an entry.
abbrev pub child_event : Text → ChildInfo → WatchEvent
child_event path info = record {
  event_type = event_create;
  is_dir = info.is_dir;
  path = path_join path info.name;
}

module _ (O : Os) (cb : List WatchEvent → WatchEvent → Bool) where
  -- w.cb(e): whether it succeeds may depend on all that it has been given before.
  unfoldable pub call_back : WatchEvent → FileWatcher O → Ended (FileWatcher O)
  call_back e w =
      let ok = cb w.called e in
      let w' : FileWatcher O = record w { called = w.called ++ e ∷ [] } in
      if ok then finished w' else failed callback_error w'

  -- The loop over the entries; `apply` is applyWatchEvent.
  unfoldable pub add_children :
      (WatchEvent → FileWatcher O → Ended (FileWatcher O))
      → Text
      → List ChildInfo
      → FileWatcher O
      → Ended (FileWatcher O)
  add_children apply path [] w = finished w
  add_children apply path (info ∷ infos) w =
      (if is_skipped info.name then finished w else apply (child_event path info) w)
      >>= add_children apply path infos

  -- The deferred f.Close(), whose error counts only if there is none yet.
  unfoldable pub close_after : Text → Ended (FileWatcher O) → Ended (FileWatcher O)
  close_after path (finished w) =
      let r = O.close_dir path w.kernel in
      let w' : FileWatcher O = record w { kernel = r.1 } in
      elim r.0 [
        | success _ ↦ finished w'
        | not_exist ↦ failed could_not_close w'
        | sys_error ↦ failed could_not_close w'
      ]
  close_after path (failed e w) = failed e (record w { kernel = (O.close_dir path w.kernel).1 })
  close_after path panicked = panicked
  close_after path out_of_fuel = out_of_fuel

  -- An error of a system call in add: that a path is gone counts only for the root.
  unfoldable pub gone : WatchError → Text → FileWatcher O → Ended (FileWatcher O)
  gone error path w = if text_eq path w.root_dir then failed error w else finished w

  -- add from f.Readdir on.
  unfoldable pub add_opened :
      (WatchEvent → FileWatcher O → Ended (FileWatcher O))
      → Text
      → FileWatcher O
      → Ended (FileWatcher O)
  add_opened apply path w =
      let r = O.read_dir path w.kernel in
      let w' : FileWatcher O = record w { kernel = r.1 } in
      close_after path (elim r.0 [
        | success infos ↦ add_children apply path infos w'
        | not_exist ↦ gone could_not_read path w'
        | sys_error ↦ failed could_not_read w'
      ])

  -- add from os.Open on.
  unfoldable pub add_watched :
      (WatchEvent → FileWatcher O → Ended (FileWatcher O))
      → Text
      → FileWatcher O
      → Ended (FileWatcher O)
  add_watched apply path w =
      let r = O.open_dir path w.kernel in
      let w' : FileWatcher O = record w { kernel = r.1 } in
      elim r.0 [
        | success _ ↦ add_opened apply path w'
        | not_exist ↦ gone could_not_open path w'
        | sys_error ↦ failed could_not_open w'
      ]

  unfoldable pub add_with :
      (WatchEvent → FileWatcher O → Ended (FileWatcher O))
      → WatchEvent
      → FileWatcher O
      → Ended (FileWatcher O)
  add_with apply e w = elim e.event_type [
    | event_create ↦
        let r = O.add_watch e.path w.kernel in
        let w' : FileWatcher O = record w { kernel = r.1 } in
        elim r.0 [
          | success wd ↦ add_watched apply e.path (record w' {
            wd_to_path = wd_insert wd e.path w.wd_to_path;
            watched_dirs = set_insert e.path w.watched_dirs;
          })
          | not_exist ↦ gone could_not_add e.path w'
          | sys_error ↦ failed could_not_add w'
        ]
    | event_delete ↦ panicked
    | event_modify ↦ panicked
    | event_ignore ↦ panicked
  ]

  -- applyWatchEvent, where it does not descend.
  unfoldable pub apply_with :
      (WatchEvent → FileWatcher O → Ended (FileWatcher O))
      → WatchEvent
      → FileWatcher O
      → Ended (FileWatcher O)
  apply_with add e w = elim e.event_type [
    | event_modify ↦ call_back e w
    | event_delete ↦ call_back e (record w { watched_dirs = set_delete e.path w.watched_dirs })
    | event_create ↦
        if has_text e.path w.watched_dirs
        then finished w
        else (call_back e w >>= λ w'. if e.is_dir then add e w' else finished w')
    | event_ignore ↦ (call_back e w >>= λ w'. if e.is_dir then add e w' else finished w')
  ]

  -- One unit of fuel for each level of directories.
  unfoldable pub apply_watch_event : ℕ → WatchEvent → FileWatcher O → Ended (FileWatcher O)
  apply_watch_event zero e w = out_of_fuel
  apply_watch_event (suc fuel) e w = apply_with (add_with (apply_watch_event fuel)) e w

  unfoldable pub add : ℕ → WatchEvent → FileWatcher O → Ended (FileWatcher O)
  unfolding apply_watch_event
  add fuel = add_with (apply_watch_event fuel)
