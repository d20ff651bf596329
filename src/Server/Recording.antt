-- ===== src/Server/Recording.antt =====
-- watch_daemon/api_impl.go: the goroutines of the daemon. A goroutine is the sequence of the rounds
-- of its loop, which run in any order with the calls of the API.
pub mod Batching
use golang_time_tracker.Base.{
  ℕ, zero, suc, ◌+◌, Bool, true, false, ◌&&◌, not, List, [], ◌∷◌, Option, none, some, if◌then◌else◌,
  ◌==◌, leb, get_elem?,
}
use golang_time_tracker.Base.Int.{ℤ}
use golang_time_tracker.Escape.{escape}
use golang_time_tracker.Database.{Database, insert_or_ignore_tick, update_last_write}
use golang_time_tracker.Server.State.{ok, err, Server, Outcome, returned, crashed, ◌>>=◌}
use golang_time_tracker.Server.Watches.{Watch}
use golang_time_tracker.Server.Handlers.{lock_db, sync_watches}

-- atomic.StoreInt32(&w.hasPending, n)
unfoldable pub set_pending : ℕ → ℕ → List Watch → List Watch
set_pending i n [] = []
set_pending zero n (w ∷ heap) = record w { has_pending = n } ∷ heap
set_pending (suc i) n (w ∷ heap) = w ∷ set_pending i n heap

-- What the driver answers to Begin and Commit, and which ready case of the select is taken where
-- the watch has been cancelled: all of it is chosen from outside.
pub record Choices : Type 0 where
  pub begins : Bool
  pub commits : Bool
  pub ticker_first : Bool

module _ (D : Database) where
  open D use {Db, exec}

  -- The two commands of the transaction: `none` if one of them fails, after which it is rolled
  -- back.
  unfoldable pub record_write : Watch → ℤ → Db → Option Db
  record_write w now db = elim (exec (insert_or_ignore_tick now (escape w.label)) db) [
    | none ↦ none
    | some db' ↦ exec (update_last_write now (escape w.dir)) db'
  ]

  -- The transaction. Without one, because Begin failed, the first Exec is on a nil pointer.
  unfoldable pub record_txn : (begins commits : Bool) → Watch → ℤ → Server D → Outcome (Server D)
  record_txn begins commits w now s =
      if not begins then crashed else elim (record_write w now s.db) [
        | none ↦ returned s
        | some db ↦ returned (if commits then record s { db = db } else s)
      ]

  -- A round of recordWritesInDB for the watch `w` at `i`; `false` if the loop ends with it.
  unfoldable pub record_round : Choices → ℕ → Watch → ℤ → Server D → Outcome (Server D × Bool)
  record_round ch i w now s =
      if w.cancelled && not ch.ticker_first
      then returned (s, false)
      else if w.has_pending == 1
      then (do
        s ←
            lock_db D
              (record s { watches = record s.watches { heap = set_pending i 0 s.watches.heap } })
        s ← record_txn ch.begins ch.commits w now s
        returned (s, true))
      else returned (s, true)

  unfoldable pub record_writes_in_db : Choices → ℕ → ℤ → Server D → Outcome (Server D × Bool)
  record_writes_in_db ch i now s = elim (get_elem? s.watches.heap i) [
    | none ↦ crashed
    | some w ↦ record_round ch i w now s
  ]

  -- handleEvent of the watch at `i`.
  unfoldable pub handle_event : ℕ → Server D → Server D
  handle_event i s = record s {
    watches = record s.watches { heap = set_pending i 1 s.watches.heap };
  }

  -- A round of syncWatchesLoop, with its count of errors.
  unfoldable pub sync_round : ℕ → Server D → Outcome (Server D × ℕ)
  sync_round err_count s = sync_watches D s >>= λ r.
      (let count = err_count + elim r.1 [ ok _ ↦ 0 | err _ ↦ 1 ] in
        if leb 3 count then crashed else returned (r.0, count))
