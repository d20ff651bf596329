-- ===== src/Server/Watches.antt =====
-- watch_daemon/api_impl.go: the objects behind `server.watches`, and the second half of
-- syncWatches, which makes the running watches agree with the database.
pub mod Relation
pub mod Align
pub mod Agree
pub mod Stale
pub mod Converge
pub mod Skips
use golang_time_tracker.Base.{
  ℕ, zero, suc, ◌+◌, Bool, true, false, List, [], ◌∷◌, ◌++◌, Option, none, some, if◌then◌else◌,
  length, get_elem?,
}
use golang_time_tracker.Base.Int.{ℤ}
use golang_time_tracker.Base.Text.{Text, text_lt}
use golang_time_tracker.Base.Halt.{Halt, done, panics, stuck}
use golang_time_tracker.Base.Sorting.{sort_texts}
use golang_time_tracker.Base.Table.{lookup, insert, delete, keys}

-- A watch. `cancelled` says whether its context has been cancelled, which ends its goroutines.
-- `start`, which only decides what is logged, is left out.
pub record Watch : Type 0 where
  pub dir : Text
  pub label : Text
  pub has_pending : ℕ
  pub cancelled : Bool

pub record DbWatchInfo : Type 0 where
  pub dir : Text
  pub label : Text
  pub last_write : ℤ

-- Every watch made so far, by the order of their making, and the map from directories to the
-- watches: a pointer is a place in `heap`.
pub record Watches : Type 0 where
  pub heap : List Watch
  pub watches : List (Text × ℕ)

unfoldable pub cancel_at : ℕ → List Watch → List Watch
cancel_at i [] = []
cancel_at zero (w ∷ heap) = record w { cancelled = true } ∷ heap
cancel_at (suc i) (w ∷ heap) = w ∷ cancel_at i heap

-- case create: a new watch with its goroutines takes the place of any other of its directory.
unfoldable pub create : DbWatchInfo → Watches → Watches
create d s = record {
  heap = s.heap ++ record { dir = d.dir; label = d.label; has_pending = 0; cancelled = false } ∷ [];
  watches = insert d.dir (length s.heap) s.watches;
}

-- case remove: a directory that is no key would be a call through a nil pointer.
unfoldable pub remove : Text → Watches → Halt Watches
unfolding cancel_at
remove dir s = elim (lookup dir s.watches) [
  | none ↦ panics
  | some w ↦ done (record { heap = cancel_at w s.heap; watches = delete dir s.watches })
]

-- copy(l[i:], l[i+1:]) and cutting off the last element
unfoldable pub remove_at {ℓ} : {A : Type ℓ} → ℕ → List A → List A
remove_at i [] = []
remove_at zero (x ∷ xs) = xs
remove_at (suc i) (x ∷ xs) = x ∷ remove_at i xs

-- What one round of the loop decides on, from the elements at `i` and `j`.
pub data Op : Type 0 where
  op_stop op_keep : Op
  op_create : DbWatchInfo → Op
  op_remove : Text → Op

unfoldable pub next_op : Option Text → Option DbWatchInfo → Op
next_op none none = op_stop
next_op none (some d) = op_create d
next_op (some e) none = op_remove e
next_op (some e) (some d) =
    if text_lt d.dir e then op_create d else if text_lt e d.dir then op_remove e else op_keep

-- The loop over `i2` and `j2`, with the slice of existing watches, which shrinks on the way.
unfoldable pub sync_loop : ℕ → List DbWatchInfo → List Text → ℕ → ℕ → Watches → Halt Watches
sync_loop zero db existing i j s = stuck
sync_loop (suc fuel) db existing i j s = elim (next_op (get_elem? existing i) (get_elem? db j)) [
  | op_stop ↦ done s
  | op_keep ↦ sync_loop fuel db existing (suc i) (suc j) s
  | op_create d ↦ sync_loop fuel db existing i (suc j) (create d s)
  | op_remove e ↦ elim (remove e s) [
    | done s' ↦ sync_loop fuel db (remove_at i existing) (suc i) j s'
    | panics ↦ panics
    | stuck ↦ stuck
  ]
]

-- (2.2) of syncWatches, from the watches that the database holds. A round takes an element of
-- either list at least, so that their lengths are fuel enough.
unfoldable pub align_watches : List DbWatchInfo → Watches → Halt Watches
unfolding sync_loop next_op sort_texts
align_watches db s =
    let existing = sort_texts (keys s.watches) in
    sync_loop (suc (length existing + length db)) db existing 0 0 s
