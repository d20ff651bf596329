-- ===== src/Database/Rules.antt =====
-- What the watch daemon (watch_daemon/api_impl.go) relies on of SQLite and its driver: the
-- documented effect of its statements, for texts that a %q format passes on as they are.
use golang_time_tracker.Base.{
  ℕ, ◌-◌, ◌≤◌, ◌<◌, ◌≡◌, ◌≢◌, Bool, true, false, ◌&&◌, List, [], ◌∷◌, ◌++◌, map, Option, none, some,
  All, if◌then◌else◌, length, ◌⊎◌,
}
use mathlib.Core.List.{Memᴰ, Perm}
use golang_time_tracker.Base.Int.{ℤ, ◌≤ℤ◌, eqb_ℤ, leb_ℤ}
use golang_time_tracker.Base.Text.{Text, text_eq}
use golang_time_tracker.Base.Sorting.{Sorted, Distinct, has_text}
use golang_time_tracker.Base.Paths.{is_abs}
use golang_time_tracker.Escape.{quote, backslash}
use golang_time_tracker.Database.{
  Statement, TickRow, Database, WatchRow, create_tables, insert_tick, insert_or_ignore_tick,
  update_last_write, insert_watch, delete_excess_watches, recreate_tables,
}

-- Printable ASCII without '"' and '\': Go's %q puts such a text between quotes and changes nothing,
-- and SQLite reads it back from between them.
abbrev pub IsVerbatim : Text → Type 0
IsVerbatim = All (λ c. (32 ≤ c) × (c < 127) × (c ≢ quote) × (c ≢ backslash))

abbrev pub row_dirs : List WatchRow → List Text
row_dirs = map (λ row. row.dir)

-- The rows whose directories are not in `gone`.
unfoldable pub without : List Text → List WatchRow → List WatchRow
without gone [] = []
without gone (row ∷ rows) =
    if has_text row.dir gone then without gone rows else row ∷ without gone rows

-- The rows, with the last write of those that `hit` holds of set.
unfoldable pub set_where : ℤ → (WatchRow → Bool) → List WatchRow → List WatchRow
set_where t hit [] = []
set_where t hit (row ∷ rows) =
    (if hit row then record row { last_write = t } else row) ∷ set_where t hit rows

abbrev pub set_last_write : ℤ → Text → List WatchRow → List WatchRow
set_last_write t dir = set_where t (λ row. text_eq row.dir dir)

-- The rows of `rows` that a DELETE of the `length rows - n` least recently written leaves.
pub record Trims (n : ℕ) (rows rows' : List WatchRow) : Type 0 where
  pub gone : List Text
  pub count : length gone ≡ length rows - n
  pub among : All (λ dir. has_text dir (row_dirs rows) ≡ true) gone
  pub each_once : Distinct (row_dirs rows) → Distinct gone
  pub oldest :
      All
        (λ row.
          has_text row.dir gone ≡ true
          → All
              (λ other. has_text other.dir gone ≡ false → row.last_write ≤ℤ other.last_write)
              rows)
        rows
  pub left : rows' ≡ without gone rows

-- The rows whose time is from `lo` to `hi`.
unfoldable pub ticks_between : ℤ → ℤ → List TickRow → List TickRow
ticks_between lo hi [] = []
ticks_between lo hi (row ∷ rows) =
    let rest = ticks_between lo hi rows in
    if leb_ℤ lo row.time && leb_ℤ row.time hi then row ∷ rest else rest

-- A statement other than the DROP of the tables, in which the texts are such that it is one
-- statement.
abbrev pub KeepsTicks : Statement → Type 0
KeepsTicks create_tables = Unit {0}
KeepsTicks (insert_tick t l) = IsVerbatim l
KeepsTicks (insert_or_ignore_tick t l) = IsVerbatim l
KeepsTicks (update_last_write t dir) = IsVerbatim dir
KeepsTicks (insert_watch t dir label) = IsVerbatim dir × IsVerbatim label
KeepsTicks (delete_excess_watches n) = Unit {0}
KeepsTicks recreate_tables = ⊥

-- The label of a second, where there is one, and otherwise `l`.
abbrev pub label_or : Text → Option Text → Text
label_or l none = l
label_or l (some old) = old

pub record Rules (D : Database) : Type 0 where
  -- The rows of the table `ticks`, listed in one order; a SELECT without ORDER BY reads those of
  -- the range in any order.
  pub ticks_of : D.Db → List TickRow
  pub ranged :
      (lo hi : ℤ) (db : D.Db) (rows : List TickRow)
      → D.select_ticks lo hi db ≡ some rows
      → Perm rows (ticks_between lo hi (ticks_of db))
  -- The label stored for a second, and the rows of the table `watches` in some order.
  pub tick_at : D.Db → ℤ → Option Text
  pub watches_of : D.Db → List WatchRow
  pub created :
      (db db' : D.Db) → D.exec create_tables db ≡ some db' → watches_of db' ≡ watches_of db
  pub tick_row :
      (db : D.Db) (t : ℤ) (l : Text)
      → tick_at db t ≡ some l
      → Memᴰ t (map (λ row. row.time) (ticks_of db))
  -- `time` is a primary key.
  pub tick_new :
      (t : ℤ) (l : Text) (db db' : D.Db)
      → IsVerbatim l
      → D.exec (insert_tick t l) db ≡ some db'
      → tick_at db t ≡ none
  pub tick_stored :
      (t : ℤ) (l : Text) (db db' : D.Db)
      → IsVerbatim l
      → D.exec (insert_tick t l) db ≡ some db'
      → (u : ℤ) → tick_at db' u ≡ (if eqb_ℤ t u then some l else tick_at db u)
  pub tick_watches :
      (t : ℤ) (l : Text) (db db' : D.Db)
      → IsVerbatim l
      → D.exec (insert_tick t l) db ≡ some db'
      → watches_of db' ≡ watches_of db
  pub ignore_stored :
      (t : ℤ) (l : Text) (db db' : D.Db)
      → IsVerbatim l
      → D.exec (insert_or_ignore_tick t l) db ≡ some db'
      → tick_at db' t ≡ some (label_or l (tick_at db t))
  pub ignore_watches :
      (t : ℤ) (l : Text) (db db' : D.Db)
      → IsVerbatim l
      → D.exec (insert_or_ignore_tick t l) db ≡ some db'
      → watches_of db' ≡ watches_of db
  -- The UPDATE sets the last write of the rows that its condition holds of. SQLite reads a text
  -- between double quotes as a column where there is one of that name; no column's begins with a
  -- slash.
  pub updated_where :
      (t : ℤ) (dir : Text) (db db' : D.Db)
      → IsVerbatim dir
      → D.exec (update_last_write t dir) db ≡ some db'
      → (hit : WatchRow → Bool) × (watches_of db' ≡ set_where t hit (watches_of db))
  pub updated :
      (t : ℤ) (dir : Text) (db db' : D.Db)
      → IsVerbatim dir
      → is_abs dir ≡ true
      → D.exec (update_last_write t dir) db ≡ some db'
      → watches_of db' ≡ set_last_write t dir (watches_of db)
  pub watch_added :
      (t : ℤ) (dir label : Text) (db db' : D.Db)
      → IsVerbatim dir
      → IsVerbatim label
      → D.exec (insert_watch t dir label) db ≡ some db'
      → watches_of db' ≡ watches_of db ++ record { last_write = t; dir = dir; label = label } ∷ []
  pub trimmed :
      (n : ℕ) (db db' : D.Db)
      → D.exec (delete_excess_watches n) db ≡ some db'
      → Trims n (watches_of db) (watches_of db')
  pub recreated : (db db' : D.Db) → D.exec recreate_tables db ≡ some db' → watches_of db' ≡ []
  -- The table is there as it was, or is gone, or is there anew.
  pub partly :
      (db : D.Db)
      → (watches_of (D.partly_recreated db) ≡ watches_of db)
        ⊎ (watches_of (D.partly_recreated db) ≡ [])
  -- No other statement deletes or changes a tick.
  pub ticks_kept :
      (st : Statement) (db db' : D.Db) (t : ℤ) (l : Text)
      → KeepsTicks st
      → D.exec st db ≡ some db'
      → tick_at db t ≡ some l
      → tick_at db' t ≡ some l
  pub from_table :
      (db : D.Db) (rows : List WatchRow) (row : WatchRow)
      → D.select_watches db ≡ some rows
      → Memᴰ row rows
      → Memᴰ row (watches_of db)
  -- ORDER BY dir ASC, which compares the bytes.
  pub selected :
      (db : D.Db) (rows : List WatchRow)
      → D.select_watches db ≡ some rows
      → (k : Text) → has_text k (row_dirs rows) ≡ has_text k (row_dirs (watches_of db))
  pub in_order :
      (db : D.Db) (rows : List WatchRow)
      → D.select_watches db ≡ some rows
      → Distinct (row_dirs (watches_of db))
      → Sorted (row_dirs rows)
