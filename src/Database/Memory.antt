-- ===== src/Database/Memory.antt =====
-- A database in memory, with which the claims on the watch daemon (watch_daemon/api_impl.go) are
-- tried out. A DELETE that has rows to delete is one of its errors.
pub mod Rows
use golang_time_tracker.Base.{
  ℕ, ◌≡◌, refl, ap, true, false, List, [], ◌∷◌, ◌++◌, map, Option, none, some, arith, All,
  if◌then◌else◌, length, leb, Option-cases, Bool-cases, ◌≤◌, inl, inr,
}
use golang_time_tracker.Base.Int.{ℤ, ◌≤ℤ◌, leb_ℤ, eqb_ℤ}
use golang_time_tracker.Base.Text.{Text, text_eq}
use golang_time_tracker.Base.Sorting.{has_text}
use golang_time_tracker.Database.{
  Database, TickRow, WatchRow, Statement, create_tables, insert_tick, insert_or_ignore_tick,
  update_last_write, insert_watch, delete_excess_watches, recreate_tables,
}
use golang_time_tracker.Database.Memory.Rows.{sort_rows, selected_lem, in_order_lem, from_table_lem}
use mathlib.Core.List.{Memᴰ}
use mathlib.Core.List.Perm
use mathlib.Core.List.Memᴰ
use golang_time_tracker.Database.Rules.{
  label_or, ticks_between, KeepsTicks, Rules, Trims, row_dirs, without, set_where, set_last_write,
}

pub record Tables : Type 0 where
  pub ticks : List TickRow
  pub watches : List WatchRow

unfoldable pub find_tick : ℤ → List TickRow → Option Text
find_tick t [] = none
find_tick t (row ∷ rows) = if eqb_ℤ row.time t then some row.labels else find_tick t rows

-- The rows are kept in the order of their times.
unfoldable pub put_tick : TickRow → List TickRow → List TickRow
put_tick new [] = new ∷ []
put_tick new (row ∷ rows) =
    if leb_ℤ new.time row.time then new ∷ row ∷ rows else row ∷ put_tick new rows

unfoldable pub run : Statement → Tables → Option Tables
unfolding put_tick find_tick set_where
run create_tables db = some db
run (insert_tick t l) db = elim (find_tick t db.ticks) [
  | none ↦ some (record db { ticks = put_tick (record { time = t; labels = l }) db.ticks })
  | some _ ↦ none
]
run (insert_or_ignore_tick t l) db = elim (find_tick t db.ticks) [
  | none ↦ some (record db { ticks = put_tick (record { time = t; labels = l }) db.ticks })
  | some _ ↦ some db
]
run (update_last_write t dir) db = some (record db { watches = set_last_write t dir db.watches })
run (insert_watch t dir label) db =
    if has_text dir (row_dirs db.watches)
    then none
    else some (record db {
      watches = db.watches ++ record { last_write = t; dir = dir; label = label } ∷ [];
    })
run (delete_excess_watches n) db = if leb (length db.watches) n then some db else none
run recreate_tables db = some (record { ticks = []; watches = [] })

abbrev pub memory : Database
memory = record {
  Db = Tables;
  exec = run;
  partly_recreated = λ db. db;
  select_watches = λ db. some (sort_rows db.watches);
  select_ticks = λ lo hi db. some (ticks_between lo hi db.ticks);
}

find-put_tick :
    (t u : ℤ) (l : Text) (rows : List TickRow)
    → find_tick t rows ≡ none
    → find_tick u (put_tick (record { time = t; labels = l }) rows)
      ≡ (if eqb_ℤ t u then some l else find_tick u rows)
unfolding find_tick put_tick
find-put_tick t u l [] h = refl
find-put_tick t u l (row ∷ rows) h = ground (arith, find-put_tick t u l rows)

without_none : (rows : List WatchRow) → rows ≡ without [] rows
unfolding without
without_none [] = refl
without_none (row ∷ rows) = ap (◌∷◌ row) (without_none rows)

nothing_gone :
    (all rows : List WatchRow)
    → All
        (λ row.
          has_text row.dir [] ≡ true
          → All (λ other. has_text other.dir [] ≡ false → row.last_write ≤ℤ other.last_write) all)
        rows
nothing_gone all [] = tt
nothing_gone all (row ∷ rows) = ((λ e. cc), nothing_gone all rows)

pub trimmed_lem :
    (n : ℕ) (db db' : Tables)
    → run (delete_excess_watches n) db ≡ some db'
    → Trims n db.watches db'.watches
unfolding run
trimmed_lem n db db' h =
    let same : db ≡ db' = ground arith in
    let short : length db.watches ≤ n = ground arith in
    rw (← same) (record {
      gone = [];
      count = ground arith;
      among = tt;
      each_once = λ d. tt;
      oldest = nothing_gone db.watches db.watches;
      left = without_none db.watches;
    })

pub stored_lem :
    (t : ℤ) (l : Text) (db db' : Tables)
    → run (insert_tick t l) db ≡ some db'
    → (u : ℤ) → find_tick u db'.ticks ≡ (if eqb_ℤ t u then some l else find_tick u db.ticks)
unfolding run
stored_lem t l db db' h u = elim (Option-cases (find_tick t db.ticks)) [
  | inl e ↦
      let same : record db { ticks = put_tick (record { time = t; labels = l }) db.ticks } ≡ db' =
        ground (arith, e) in
      rw (← same) (find-put_tick t u l db.ticks e)
  | inr (k, e) ↦ ground (arith, e)
]

pub ignored_lem :
    (t : ℤ) (l : Text) (db db' : Tables)
    → run (insert_or_ignore_tick t l) db ≡ some db'
    → find_tick t db'.ticks ≡ some (label_or l (find_tick t db.ticks))
unfolding run
ignored_lem t l db db' h = elim (Option-cases (find_tick t db.ticks)) [
  | inl e ↦
      let same : record db { ticks = put_tick (record { time = t; labels = l }) db.ticks } ≡ db' =
        ground (arith, e) in
      rw (← same, e) (ground (arith, find-put_tick t t l db.ticks e))
  | inr (k, e) ↦ let same : db ≡ db' = ground (arith, e) in rw (← same, e) refl
]

pub kept_lem :
    (st : Statement) (db db' : Tables) (t : ℤ) (l : Text)
    → KeepsTicks st
    → run st db ≡ some db'
    → find_tick t db.ticks ≡ some l
    → find_tick t db'.ticks ≡ some l
unfolding run
kept_lem create_tables db db' t l k h e = ground arith
kept_lem (insert_tick u m) db db' t l k h e = ground (arith, find-put_tick u t m db.ticks)
kept_lem (insert_or_ignore_tick u m) db db' t l k h e = ground (arith, find-put_tick u t m db.ticks)
kept_lem (update_last_write u dir) db db' t l k h e = ground arith
kept_lem (insert_watch u dir label) db db' t l k h e = ground arith
kept_lem (delete_excess_watches n) db db' t l k h e = ground arith
kept_lem recreate_tables db db' t l k h e = absurd k

pub tick_row_lem :
    (t : ℤ) (l : Text) (rows : List TickRow)
    → find_tick t rows ≡ some l
    → Memᴰ t (map (λ row. row.time) rows)
unfolding find_tick
tick_row_lem t l [] h = cc
tick_row_lem t l (row ∷ rows) h = elim (Bool-cases (eqb_ℤ row.time t)) [
  | inl e ↦ Memᴰ.head (ground arith)
  | inr e ↦ Memᴰ.tail (tick_row_lem t l rows (ground arith))
]

unfoldable pub memory_rules : Rules memory
unfolding run
memory_rules = record {
  ticks_of = λ db. db.ticks;
  ranged =
      λ lo hi db rows h. (let same : ticks_between lo hi db.ticks ≡ rows = cc in rw same Perm.rfl);
  tick_at = λ db t. find_tick t db.ticks;
  watches_of = λ db. db.watches;
  created = λ db db' h. ground arith;
  tick_row = λ db t l h. tick_row_lem t l db.ticks h;
  tick_new = λ t l db db' v h. ground arith;
  tick_stored = λ t l db db' v h u. stored_lem t l db db' h u;
  tick_watches = λ t l db db' v h. ground arith;
  ignore_stored = λ t l db db' v h. ignored_lem t l db db' h;
  ignore_watches = λ t l db db' v h. ground arith;
  updated_where = λ t dir db db' v h. (λ row. text_eq row.dir dir, ground arith);
  updated = λ t dir db db' v abs h. ground arith;
  watch_added = λ t dir label db db' v w h. ground arith;
  trimmed = trimmed_lem;
  recreated = λ db db' h. ground arith;
  partly = λ db. inl refl;
  ticks_kept = kept_lem;
  from_table = λ db rows row h m. from_table_lem row db.watches rows h m;
  selected = λ db rows h k. selected_lem db.watches rows k h;
  in_order = λ db rows h d. in_order_lem db.watches rows h d;
}
