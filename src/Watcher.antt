-- ===== src/Watcher.antt =====
-- pkg/watcher/watcher.go: the watcher of a directory and what it calls of the operating system. A
-- path and a name are the bytes of a Go string.
pub mod Scan
pub mod Events
pub mod Run
pub mod Print
use golang_time_tracker.Base.{Bool, ◌||◌, List, [], ◌∷◌, Option, none, some, if◌then◌else◌}
use golang_time_tracker.Base.Int.{ℤ, eqb_ℤ}
use golang_time_tracker.Base.Text.{Text, text_eq, has_prefix}

pub data WatchEventType : Type 0 where
  event_create event_delete event_modify event_ignore : WatchEventType

pub record WatchEvent : Type 0 where
  pub event_type : WatchEventType
  pub is_dir : Bool
  pub path : Text

-- os.FileInfo of an entry of a directory
pub record ChildInfo : Type 0 where
  pub name : Text
  pub is_dir : Bool

-- What a system call answers; os.IsNotExist tells one error from the others.
pub data Sys {ℓ} (A : Type ℓ) : Type ℓ where
  success : A → Sys A
  not_exist sys_error : Sys A

-- The operating system. Each call returns its state too, which other processes change as well. The
-- descriptor of the inotify instance is in the state, and an open directory is named by its path.
pub record Os : Type 1 where
  pub Kernel : Type 0
  -- os.Stat(path), for its IsDir()
  pub stat : Text → Kernel → Sys Bool × Kernel
  -- unix.InotifyInit()
  pub inotify_init : Kernel → Sys (Unit {0}) × Kernel
  -- unix.InotifyAddWatch(fd, path, watchMask)
  pub add_watch : Text → Kernel → Sys ℤ × Kernel
  pub open_dir : Text → Kernel → Sys (Unit {0}) × Kernel
  pub read_dir : Text → Kernel → Sys (List ChildInfo) × Kernel
  pub close_dir : Text → Kernel → Sys (Unit {0}) × Kernel
  -- unix.Close(fd)
  pub close : Kernel → Sys (Unit {0}) × Kernel

-- The errors that Watch returns; `callback_error` stands for the callback's own.
pub data WatchError : Type 0 where
  could_not_stat inotify_error could_not_add could_not_open could_not_read could_not_close :
      WatchError
  unrecognized_descriptor root_deleted poll_error read_error close_error callback_error : WatchError

-- How a piece of the watcher ends; `out_of_fuel` is the model's own answer.
pub data Ended {ℓ} (S : Type ℓ) : Type ℓ where
  finished : S → Ended S
  failed : WatchError → S → Ended S
  panicked out_of_fuel : Ended S

infixl 5 ◌>>=◌
abbrev pub ◌>>=◌ {ℓ} : {S : Type ℓ} → Ended S → (S → Ended S) → Ended S
finished s >>= f = f s
failed e s >>= f = failed e s
panicked >>= f = panicked
out_of_fuel >>= f = out_of_fuel

-- A Go map from watch descriptors to paths.
unfoldable pub wd_lookup : ℤ → List (ℤ × Text) → Option Text
wd_lookup wd [] = none
wd_lookup wd ((v, path) ∷ m) = if eqb_ℤ v wd then some path else wd_lookup wd m

unfoldable pub wd_insert : ℤ → Text → List (ℤ × Text) → List (ℤ × Text)
wd_insert wd path [] = (wd, path) ∷ []
wd_insert wd path ((v, old) ∷ m) =
    if eqb_ℤ v wd then (wd, path) ∷ m else (v, old) ∷ wd_insert wd path m

-- The set of the watched directories.
unfoldable pub set_insert : Text → List Text → List Text
set_insert k [] = k ∷ []
set_insert k (j ∷ ks) = if text_eq j k then j ∷ ks else j ∷ set_insert k ks

unfoldable pub set_delete : Text → List Text → List Text
set_delete k [] = []
set_delete k (j ∷ ks) = if text_eq j k then set_delete k ks else j ∷ set_delete k ks

-- fileWatcher, with the events that the callback has been given, in their order.
module _ (O : Os) where
  pub record FileWatcher : Type 0 where
    pub root_dir : Text
    pub wd_to_path : List (ℤ × Text)
    pub watched_dirs : List Text
    pub called : List WatchEvent
    pub kernel : O.Kernel

-- strings.Contains(s, sub)
unfoldable pub contains : Text → Text → Bool
contains [] sub = has_prefix [] sub
contains (c ∷ s) sub = has_prefix (c ∷ s) sub || contains s sub

-- strings.HasSuffix(s, suffix)
unfoldable pub has_suffix : Text → Text → Bool
has_suffix [] suffix = text_eq [] suffix
has_suffix (c ∷ s) suffix = text_eq (c ∷ s) suffix || has_suffix s suffix
