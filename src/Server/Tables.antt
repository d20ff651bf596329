-- ===== src/Server/Tables.antt =====
-- How the calls of watch_daemon/api_impl.go read and change the table `watches`.
use golang_time_tracker.Base.{
  ◌≤◌, ◌≡◌, ◌⊎◌, ◌≢◌, refl, sym, ap, ◌∙◌, List, [], ◌∷◌, none, some, All, length, Option-cases, inl,
  inr,
}
use golang_time_tracker.Base.Int.{ℤ}
use golang_time_tracker.Base.Text.{Text}
use golang_time_tracker.Base.Sorting.{Sorted, has_text, All-has_text, All_of_has_text}
use golang_time_tracker.Escape.{escape, unescape}
use golang_time_tracker.Escape.RoundTrip.{IsPlain, escape_plain, unescape-escape}
use golang_time_tracker.Database.{Database, WatchRow, insert_watch, delete_excess_watches}
use golang_time_tracker.Database.Tables.{Trims-length-le}
use golang_time_tracker.Database.Rules.{Trims, Rules, IsVerbatim, row_dirs}
use mathlib.Core.List.{Memᴰ}
use golang_time_tracker.Server.State.{max_watches}
use golang_time_tracker.Server.Watches.{DbWatchInfo}
use golang_time_tracker.Server.Watches.Align.{dirs}
use golang_time_tracker.Server.Handlers.{conflict, parse_watches, get_db_watches, delete_excess}
use golang_time_tracker.Server.Invariant.{
  Apart, IsTable, IsTable-append, IsTable-Trims, IsTable-Distinct, conflict_iff,
}

IsVerbatim-IsPlain : (s : Text) → IsVerbatim s → IsPlain s
IsVerbatim-IsPlain [] h = tt
IsVerbatim-IsPlain (c ∷ s) h = ((h.0.2, h.0.3), IsVerbatim-IsPlain s h.1)

pub escape_verbatim : (s : Text) → IsVerbatim s → escape s ≡ s
escape_verbatim s h = escape_plain s (IsVerbatim-IsPlain s h)

unescape_verbatim : (s : Text) → IsVerbatim s → unescape s ≡ s
unescape_verbatim s h = ap unescape (sym (escape_verbatim s h)) ∙ unescape-escape s

dirs-parse_watches :
    (rows : List WatchRow)
    → All IsVerbatim (row_dirs rows)
    → dirs (parse_watches rows) ≡ row_dirs rows
unfolding parse_watches
dirs-parse_watches [] h = refl
dirs-parse_watches (row ∷ rows) h =
    rw (unescape_verbatim row.dir h.0) (ap (◌∷◌ row.dir) (dirs-parse_watches rows h.1))

-- A directory and a label that are both plain printable characters.
abbrev pub IsNamed : Text → Text → Type 0
IsNamed dir label = IsVerbatim dir × IsVerbatim label

IsNamed-of_Memᴰ :
    (row : WatchRow) (rows : List WatchRow)
    → All IsVerbatim (row_dirs rows)
    → All (λ r. IsVerbatim r.label) rows
    → Memᴰ row rows
    → IsNamed row.dir row.label
IsNamed-of_Memᴰ row [] h l m = elim m [ ]
IsNamed-of_Memᴰ row (r ∷ rows) h l (Memᴰ.head p) = rw p (h.0, l.0)
IsNamed-of_Memᴰ row (r ∷ rows) h l (Memᴰ.tail m) = IsNamed-of_Memᴰ row rows h.1 l.1 m

parse_watches-IsNamed :
    (rows : List WatchRow)
    → ((row : WatchRow) → Memᴰ row rows → IsNamed row.dir row.label)
    → All (λ d. IsNamed d.dir d.label) (parse_watches rows)
unfolding parse_watches
parse_watches-IsNamed [] h = tt
parse_watches-IsNamed (row ∷ rows) h =
    let (dir, label) = h row (Memᴰ.head refl) in
    (
      rw (unescape_verbatim row.dir dir, unescape_verbatim row.label label) (dir, label),
      parse_watches-IsNamed rows (λ r m. h r (Memᴰ.tail m)),
    )

module _ (D : Database) (R : Rules D) where
  open R use {watches_of}

  -- What getDBWatches returns: the directories of the table, in order.
  pub get_db_watches_lem :
      (db : D.Db) (ws : List DbWatchInfo)
      → IsTable (watches_of db)
      → get_db_watches D db ≡ some ws
      → ((k : Text) → has_text k (dirs ws) ≡ has_text k (row_dirs (watches_of db)))
        × Sorted (dirs ws)
  unfolding get_db_watches
  get_db_watches_lem db ws v h = elim (Option-cases (D.select_watches db)) [
    | inl e ↦ (let p : none ≡ some ws = rw (e, get_db_watches) at h in cc)
    | inr (rows, e) ↦
        let p : some (parse_watches rows) ≡ some ws = rw (e, get_db_watches) at h in
        let read : ws ≡ parse_watches rows = cc in
        let same : dirs ws ≡ row_dirs rows =
          ap dirs read
          ∙ dirs-parse_watches rows (
              All_of_has_text IsVerbatim (row_dirs rows) λ k q.
                All-has_text IsVerbatim k (row_dirs (watches_of db)) v.verbatim
                  (sym (R.selected db rows e k) ∙ q)) in
        rw same (R.selected db rows e, R.in_order db rows e (IsTable-Distinct (watches_of db) v))
  ]

  -- The watches that getDBWatches returns are named as the rows of the table are.
  pub get_db_watches-IsNamed :
      (db : D.Db) (ws : List DbWatchInfo)
      → IsTable (watches_of db)
      → get_db_watches D db ≡ some ws
      → All (λ d. IsNamed d.dir d.label) ws
  unfolding get_db_watches
  get_db_watches-IsNamed db ws v h = elim (Option-cases (D.select_watches db)) [
    | inl e ↦ (let p : none ≡ some ws = rw (e, get_db_watches) at h in cc)
    | inr (rows, e) ↦
        let p : some (parse_watches rows) ≡ some ws = rw (e, get_db_watches) at h in
        let read : parse_watches rows ≡ ws = cc in
        rw (← read) (
          parse_watches-IsNamed rows λ row m.
            IsNamed-of_Memᴰ row (watches_of db) v.verbatim v.labels (R.from_table db rows row e m))
  ]

  accepted :
      (dir : Text) (db : D.Db) (ws : List DbWatchInfo)
      → IsTable (watches_of db)
      → get_db_watches D db ≡ some ws
      → conflict dir ws ≡ none
      → All (Apart dir) (row_dirs (watches_of db))
  accepted dir db ws v h c = All_of_has_text (Apart dir) (row_dirs (watches_of db)) λ k p.
      All-has_text (Apart dir) k (dirs ws) ((conflict_iff dir ws).0 c)
        ((get_db_watches_lem db ws v h).0 k ∙ p)

  -- A directory that addWatchToDB inserts leaves the table as it should be.
  pub inserted-IsTable :
      (dir label : Text) (now : ℤ) (db db' : D.Db) (ws : List DbWatchInfo)
      → IsTable (watches_of db)
      → IsVerbatim dir
      → IsVerbatim label
      → get_db_watches D db ≡ some ws
      → conflict dir ws ≡ none
      → D.exec (insert_watch now (escape dir) (escape label)) db ≡ some db'
      → IsTable (watches_of db')
  inserted-IsTable dir label now db db' ws v hd hl h c e =
      rw
        (R.watch_added now dir label db db' hd hl
          (rw (escape_verbatim dir hd, escape_verbatim label hl) at e))
        (IsTable-append (watches_of db) (record { last_write = now; dir = dir; label = label }) v hd
          hl (accepted dir db ws v h c))

  -- The DELETE trims the table, or has failed and left it as it was.
  pub delete_excess-Trims :
      (db : D.Db)
      → ((D.exec (delete_excess_watches max_watches) db ≡ none)
          × (watches_of (delete_excess D db) ≡ watches_of db))
        ⊎ Trims max_watches (watches_of db) (watches_of (delete_excess D db))
  unfolding delete_excess
  delete_excess-Trims db = elim (Option-cases (D.exec (delete_excess_watches max_watches) db)) [
    | inl e ↦ rw (e, delete_excess) (inl (refl, refl))
    | inr (db', e) ↦ rw (e, delete_excess) (inr (R.trimmed max_watches db db' e))
  ]

  -- Trimming leaves the table as it should be, and if it succeeds not too large.
  pub delete_excess-IsTable :
      (db : D.Db)
      → IsTable (watches_of db)
      → IsTable (watches_of (delete_excess D db))
        × (D.exec (delete_excess_watches max_watches) db ≢ none
            → length (watches_of (delete_excess D db)) ≤ max_watches)
  unfolding delete_excess
  delete_excess-IsTable db v = elim (Option-cases (D.exec (delete_excess_watches max_watches) db)) [
    | inl e ↦ rw (e, delete_excess) (v, λ h. absurd (h refl))
    | inr (db', e) ↦
        rw (e, delete_excess)
          (
            IsTable-Trims max_watches (watches_of db) (watches_of db') v
                (R.trimmed max_watches db db' e),
            λ h.
                Trims-length-le max_watches (watches_of db) (watches_of db')
                  (IsTable-Distinct (watches_of db) v) (R.trimmed max_watches db db' e),
          )
  ]
