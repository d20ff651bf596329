-- ===== src/Database/Memory/Rows.antt =====
-- The table of the watches in memory (watch_daemon/api_impl.go reads it in the order of the
-- directories).
use golang_time_tracker.Base.{
  ◌≡◌, refl, ap, ◌∙◌, Bool-cases, List, [], ◌∷◌, some, arith, if◌then◌else◌, inl, inr,
}
use golang_time_tracker.Base.Text.{Text, text_lt}
use golang_time_tracker.Base.Sorting.{
  Sorted, Distinct, has_text, insert_text, sort_texts, sort_texts-Sorted, has_text-sort_texts,
}
use golang_time_tracker.Database.{WatchRow}
use golang_time_tracker.Database.Rules.{row_dirs}
use mathlib.Core.List.{Memᴰ}
use mathlib.Core.List.Memᴰ

unfoldable put_row : WatchRow → List WatchRow → List WatchRow
put_row new [] = new ∷ []
put_row new (row ∷ rows) =
    if text_lt row.dir new.dir then row ∷ put_row new rows else new ∷ row ∷ rows

unfoldable pub sort_rows : List WatchRow → List WatchRow
unfolding put_row
sort_rows [] = []
sort_rows (row ∷ rows) = put_row row (sort_rows rows)

row_dirs-put_row :
    (row : WatchRow) (rows : List WatchRow)
    → row_dirs (put_row row rows) ≡ insert_text row.dir (row_dirs rows)
unfolding put_row insert_text
row_dirs-put_row row [] = refl
row_dirs-put_row row (r ∷ rows) = ground (arith, row_dirs-put_row row rows)

row_dirs-sort_rows : (rows : List WatchRow) → row_dirs (sort_rows rows) ≡ sort_texts (row_dirs rows)
unfolding sort_rows sort_texts
row_dirs-sort_rows [] = refl
row_dirs-sort_rows (row ∷ rows) =
    row_dirs-put_row row (sort_rows rows) ∙ ap (insert_text row.dir) (row_dirs-sort_rows rows)

pub selected_lem :
    (rows rows' : List WatchRow) (k : Text)
    → some (sort_rows rows) ≡ some rows'
    → has_text k (row_dirs rows') ≡ has_text k (row_dirs rows)
selected_lem rows rows' k h =
    let same : sort_rows rows ≡ rows' = ground arith in
    rw (← same) (ap (has_text k) (row_dirs-sort_rows rows) ∙ has_text-sort_texts k (row_dirs rows))

pub in_order_lem :
    (rows rows' : List WatchRow)
    → some (sort_rows rows) ≡ some rows'
    → Distinct (row_dirs rows)
    → Sorted (row_dirs rows')
in_order_lem rows rows' h d =
    let same : sort_rows rows ≡ rows' = ground arith in
    rw (← same, row_dirs-sort_rows rows) (sort_texts-Sorted (row_dirs rows) d)

Memᴰ-put_row :
    (x row : WatchRow) (rows : List WatchRow) → Memᴰ x (put_row row rows) → Memᴰ x (row ∷ rows)
unfolding put_row
Memᴰ-put_row x row [] m = m
Memᴰ-put_row x row (r ∷ rows) m = elim (Bool-cases (text_lt r.dir row.dir)) [
  | inl e ↦ elim (Memᴰ.cases_cons (rw e at m)) [
    | inl p ↦ Memᴰ.tail (Memᴰ.head p)
    | inr q ↦ later (Memᴰ-put_row x row rows q)
  ]
  | inr e ↦ rw e at m
]
  where
    later : Memᴰ x (row ∷ rows) → Memᴰ x (row ∷ r ∷ rows)
    later (Memᴰ.head p) = Memᴰ.head p
    later (Memᴰ.tail q) = Memᴰ.tail (Memᴰ.tail q)

Memᴰ-sort_rows : (x : WatchRow) (rows : List WatchRow) → Memᴰ x (sort_rows rows) → Memᴰ x rows
unfolding sort_rows
Memᴰ-sort_rows x [] m = m
Memᴰ-sort_rows x (row ∷ rows) m = elim (Memᴰ.cases_cons (Memᴰ-put_row x row (sort_rows rows) m)) [
  | inl p ↦ Memᴰ.head p
  | inr q ↦ Memᴰ.tail (Memᴰ-sort_rows x rows q)
]

pub from_table_lem :
    (x : WatchRow) (rows rows' : List WatchRow)
    → some (sort_rows rows) ≡ some rows'
    → Memᴰ x rows'
    → Memᴰ x rows
from_table_lem x rows rows' h m =
    let same : sort_rows rows ≡ rows' = cc in Memᴰ-sort_rows x rows (rw (← same) at m)
