-- ===== src/Watcher/Events.antt =====
-- pkg/watcher/watcher.go: forEachEvent, which takes the inotify events off the bytes that have been
-- read, and toWatchEvent. The fields of struct inotify_event are read as the machine does that the
-- daemon runs on, the lowest byte first; the masks are those of inotify(7).
pub mod Framing
pub mod Chunks
use Prim.Native.Nat.{bit_and}
use golang_time_tracker.Base.{
  ℕ, zero, suc, ◌+◌, ◌-◌, ◌*◌, ◌^◌, ltb, ◌==◌, Bool, true, false, ◌||◌, List, [], ◌∷◌, Option, none,
  some, length, drop, take, if◌then◌else◌,
}
use golang_time_tracker.Base.Int.{ℤ, pos, negsuc}
use golang_time_tracker.Base.Text.{codes, text_eq}
use golang_time_tracker.Base.Paths.{clean, path_join}
use golang_time_tracker.Watcher.{
  WatchEventType, event_create, event_delete, event_modify, event_ignore, WatchEvent, Os,
  unrecognized_descriptor, root_deleted, Ended, finished, failed, panicked, out_of_fuel, wd_lookup,
  FileWatcher, has_suffix,
}

-- unix.SizeofInotifyEvent and unix.NAME_MAX
abbrev sizeof_inotify_event : ℕ
sizeof_inotify_event = 16

abbrev pub name_max : ℕ
name_max = 255

abbrev pub inotify_buf_sz : ℕ
inotify_buf_sz = sizeof_inotify_event + name_max + 1

abbrev pub in_modify : ℕ
in_modify = 2

abbrev pub in_moved_from : ℕ
in_moved_from = 64

abbrev pub in_moved_to : ℕ
in_moved_to = 128

abbrev pub in_create : ℕ
in_create = 256

abbrev pub in_delete : ℕ
in_delete = 512

abbrev in_ignored : ℕ
in_ignored = 32768

abbrev pub in_isdir : ℕ
in_isdir = 1073741824

-- unix.InotifyEvent, less its cookie, which is not used.
pub record InotifyEvent : Type 0 where
  pub wd : ℤ
  pub mask : ℕ
  pub len : ℕ

-- The uint32 and the int32 in the four bytes of `buf` from the i-th on.
unfoldable pub byte_at : List ℕ → ℕ → ℕ
byte_at [] i = 0
byte_at (b ∷ buf) zero = b
byte_at (b ∷ buf) (suc i) = byte_at buf i

unfoldable pub uint32_at : List ℕ → ℕ → ℕ
uint32_at buf i =
    byte_at buf i
    + 256 * byte_at buf (i + 1)
    + 65536 * byte_at buf (i + 2)
    + 16777216 * byte_at buf (i + 3)

unfoldable pub int32_at : List ℕ → ℕ → ℤ
int32_at buf i =
    let n = uint32_at buf i in if ltb n (2 ^ 31) then pos n else negsuc (2 ^ 32 - n - 1)

-- The loop that finds the last byte of the name that is not 0.
unfoldable pub strip_zeros : List ℕ → List ℕ
strip_zeros [] = []
strip_zeros (b ∷ bs) =
    let rest = strip_zeros bs in
    elim rest [ [] ↦ if b == 0 then [] else b ∷ [] | c ∷ cs ↦ b ∷ c ∷ cs ]

pub record Frame : Type 0 where
  pub event : InotifyEvent
  pub name : List ℕ
  pub rest : List ℕ

-- The event that the bytes begin with, if they hold all of it.
unfoldable pub frame_of : List ℕ → Frame
frame_of buf =
    let len = uint32_at buf 12 in
    record {
      event = record { wd = int32_at buf 0; mask = uint32_at buf 4; len = len };
      name = strip_zeros (take len (drop sizeof_inotify_event buf));
      rest = drop (sizeof_inotify_event + len) buf;
    }

-- The two tests whether the bytes hold an event in full; `buf` is buf[start:].
unfoldable pub first_event : List ℕ → Option Frame
first_event buf =
    if ltb (length buf) sizeof_inotify_event
    then none
    else if ltb (length buf) (sizeof_inotify_event + uint32_at buf 12)
    then none
    else some (frame_of buf)

-- e.Mask&bit > 0
abbrev pub has_bit : ℕ → ℕ → Bool
has_bit mask bit = ltb 0 (bit_and mask bit)

-- The switch of toWatchEvent; a mask that no case fits leaves the zero value, which is Create.
unfoldable pub type_of_mask : ℕ → WatchEventType
type_of_mask mask =
    if has_bit mask in_create || has_bit mask in_moved_to
    then event_create
    else if has_bit mask in_delete || has_bit mask in_moved_from
    then event_delete
    else if has_bit mask in_modify
    then event_modify
    else if has_bit mask in_ignored
    then event_ignore
    else event_create

module _ (O : Os) where
  unfoldable pub to_watch_event : InotifyEvent → List ℕ → FileWatcher O → Option WatchEvent
  to_watch_event e name w = elim (wd_lookup e.wd w.wd_to_path) [
    | some parent ↦ some (record {
      event_type = type_of_mask e.mask;
      is_dir = has_bit e.mask in_isdir;
      path = clean (path_join parent name);
    })
    | none ↦ none
  ]

  abbrev is_ignore : WatchEventType → Bool
  is_ignore event_create = false
  is_ignore event_delete = false
  is_ignore event_modify = false
  is_ignore event_ignore = true

  -- What forEachEvent does with an event: `apply` is its callback, applyWatchEvent.
  unfoldable pub handle_frame :
      (WatchEvent → FileWatcher O → Ended (FileWatcher O))
      → InotifyEvent
      → List ℕ
      → FileWatcher O
      → Ended (FileWatcher O)
  handle_frame apply e name w = elim (to_watch_event e name w) [
    | none ↦ failed unrecognized_descriptor w
    | some we ↦
        if is_ignore we.event_type
        then (if text_eq we.path w.root_dir then failed root_deleted w else finished w)
        else if has_suffix we.path (codes ".swp") || has_suffix we.path (codes ".swo")
        then finished w
        else apply we w
  ]

  -- The watcher with the bytes that are left over.
  abbrev pub Reading : Type 0
  Reading = FileWatcher O × List ℕ

  -- Going on behind an event, or not.
  unfoldable pub resume : (FileWatcher O → Ended Reading) → Ended (FileWatcher O) → Ended Reading
  resume next (finished w) = next w
  resume next (failed e w) = failed e (w, [])
  resume next panicked = panicked
  resume next out_of_fuel = out_of_fuel

  -- The loop of forEachEvent. An event takes 16 bytes at least, so that the number of bytes is fuel
  -- enough.
  unfoldable pub event_loop :
      (WatchEvent → FileWatcher O → Ended (FileWatcher O))
      → ℕ
      → List ℕ
      → FileWatcher O
      → Ended Reading
  event_loop apply zero buf w = elim (first_event buf) [
    | none ↦ finished (w, buf)
    | some f ↦ out_of_fuel
  ]
  event_loop apply (suc fuel) buf w = elim (first_event buf) [
    | none ↦ finished (w, buf)
    | some f ↦ resume (event_loop apply fuel f.rest) (handle_frame apply f.event f.name w)
  ]

  unfoldable pub for_each_event :
      (WatchEvent → FileWatcher O → Ended (FileWatcher O)) → List ℕ → FileWatcher O → Ended Reading
  for_each_event apply buf w = event_loop apply (length buf) buf w
