-- ===== src/Watcher/Print.antt =====
-- pkg/watcher/watcher.go: the String of a WatchEvent, and Render.
use golang_time_tracker.Base.{ℕ, [], ◌++◌, none, some, if◌then◌else◌}
use golang_time_tracker.Base.Text.{Text, codes}
use golang_time_tracker.Base.Paths.{clean, path_join}
use golang_time_tracker.Watcher.{
  WatchEventType, event_create, event_delete, event_modify, event_ignore, WatchEvent, Os, wd_lookup,
  FileWatcher,
}
use golang_time_tracker.Watcher.Events.{
  InotifyEvent, in_modify, in_moved_from, in_moved_to, in_create, in_delete, in_isdir, has_bit,
}

abbrev in_delete_self : ℕ
in_delete_self = 1024

abbrev in_move_self : ℕ
in_move_self = 2048

unfoldable verb : WatchEventType → Text
verb event_create = codes "Create"
verb event_delete = codes "Delete"
verb event_modify = codes "Modify"
verb event_ignore = []

unfoldable pretty_path : WatchEvent → Text
pretty_path e = if e.is_dir then e.path ++ codes "/" else e.path

-- String
unfoldable event_string : WatchEvent → Text
event_string e = verb e.event_type ++ (codes " \"" ++ (pretty_path e ++ codes "\""))

-- The switch of Render.
unfoldable kind_of_mask : ℕ → Text
kind_of_mask mask =
    if has_bit mask in_create
    then codes "Create"
    else if has_bit mask in_delete
    then codes "Delete"
    else if has_bit mask in_modify
    then codes "Modify"
    else if has_bit mask in_moved_from
    then codes "Move from"
    else if has_bit mask in_moved_to
    then codes "Move to"
    else if has_bit mask in_delete_self
    then codes "Delete watched dir"
    else if has_bit mask in_move_self
    then codes "Move watched dir"
    else []

unfoldable parent_path : (O : Os) → InotifyEvent → FileWatcher O → Text
parent_path O e w = elim (wd_lookup e.wd w.wd_to_path) [
  | some parent ↦ parent
  | none ↦ codes "<unknown parent>"
]

unfoldable render : (O : Os) → InotifyEvent → Text → FileWatcher O → Text
render O e name w =
    codes "Event type: "
    ++ (kind_of_mask e.mask
        ++ (codes " "
            ++ (clean (path_join (parent_path O e w) name)
                ++ (if has_bit e.mask in_isdir then codes " (dir)\n" else codes " (file)\n"))))
