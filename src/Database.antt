-- ===== src/Database.antt =====
-- The SQL database behind the watch daemon (watch_daemon/api_impl.go). The statements are the
-- daemon's own; SQLite and its driver, which run them, are a parameter.
pub mod Rules
pub mod Tables
pub mod Memory
use golang_time_tracker.Base.{ℕ, List, Option}
use golang_time_tracker.Base.Int.{ℤ}
use golang_time_tracker.Base.Text.{Text}

-- A record of the table `ticks`.
pub record TickRow : Type 0 where
  pub time : ℤ
  pub labels : Text

-- A record of the table `watches`.
pub record WatchRow : Type 0 where
  pub last_write : ℤ
  pub dir : Text
  pub label : Text

-- The commands passed to Exec. A text is the one that stands behind a %q of the command's format.
pub data Statement : Type 0 where
  -- CREATE TABLE IF NOT EXISTS ticks ...; CREATE TABLE IF NOT EXISTS watches ...
  create_tables : Statement
  -- INSERT INTO ticks (time, labels) VALUES (%d, %q)
  insert_tick : ℤ → Text → Statement
  -- INSERT OR IGNORE INTO ticks (time, labels) VALUES (%d, %q)
  insert_or_ignore_tick : ℤ → Text → Statement
  -- UPDATE watches SET last_write = %d WHERE dir = %q
  update_last_write : ℤ → Text → Statement
  -- INSERT INTO watches (last_write, dir, label) VALUES (%d, %q, %q)
  insert_watch : ℤ → Text → Text → Statement
  -- DELETE FROM watches WHERE dir IN (SELECT dir FROM watches ORDER BY last_write ASC
  --   LIMIT MAX(0, (SELECT COUNT(*) FROM watches) - %d))
  delete_excess_watches : ℕ → Statement
  -- DROP TABLE ticks; DROP TABLE watches; CREATE TABLE ...
  recreate_tables : Statement

-- What the daemon calls of the driver. `none` is an error, after which the database is as it was,
-- but for `recreate_tables`: that is four commands without a transaction, and if one fails those
-- before it have taken effect.
pub record Database : Type 1 where
  pub Db : Type 0
  pub exec : Statement → Db → Option Db
  pub partly_recreated : Db → Db
  -- SELECT * FROM watches ORDER BY dir ASC, with the rows scanned
  pub select_watches : Db → Option (List WatchRow)
  -- SELECT * FROM ticks WHERE time BETWEEN %d AND %d, with the rows scanned
  pub select_ticks : ℤ → ℤ → Db → Option (List TickRow)
