-- ===== src/Database/Tables.antt =====
-- The rows of the table `watches` (watch_daemon/api_impl.go) under the daemon's statements.
use golang_time_tracker.Base.{
  ℕ, ◌+◌, ◌≤◌, ◌≡◌, refl, ap, Bool, true, false, List, [], ◌∷◌, ◌++◌, arith, All, length,
  if◌then◌else◌, Bool-cases, inl, inr,
}
use golang_time_tracker.Base.Int.{ℤ}
use golang_time_tracker.Base.Text.{Text, text_eq_iff}
use golang_time_tracker.Base.Sorting.{Distinct, has_text}
use golang_time_tracker.Database.{WatchRow}
use golang_time_tracker.Database.Rules.{row_dirs, without, set_where, Trims}

pub row_dirs-set_where :
    (t : ℤ) (hit : WatchRow → Bool) (rows : List WatchRow)
    → row_dirs (set_where t hit rows) ≡ row_dirs rows
unfolding set_where
row_dirs-set_where t hit [] = refl
row_dirs-set_where t hit (row ∷ rows) = elim (Bool-cases (hit row)) [
  | inl e ↦ rw e (ap (◌∷◌ row.dir) (row_dirs-set_where t hit rows))
  | inr e ↦ rw e (ap (◌∷◌ row.dir) (row_dirs-set_where t hit rows))
]

pub row_dirs-append :
    (rows : List WatchRow) (row : WatchRow)
    → row_dirs (rows ++ row ∷ []) ≡ row_dirs rows ++ row.dir ∷ []
row_dirs-append [] row = refl
row_dirs-append (r ∷ rows) row = ap (◌∷◌ r.dir) (row_dirs-append rows row)

pub All-without {κ} :
    (P : Text → Type κ) (gone : List Text) (rows : List WatchRow)
    → All P (row_dirs rows)
    → All P (row_dirs (without gone rows))
unfolding without
All-without P gone [] h = tt
All-without P gone (row ∷ rows) h = elim (Bool-cases (has_text row.dir gone)) [
  | inl e ↦ rw e (All-without P gone rows h.1)
  | inr e ↦ rw e (h.0, All-without P gone rows h.1)
]

without-nil : (rows : List WatchRow) → without [] rows ≡ rows
unfolding without
without-nil [] = refl
without-nil (row ∷ rows) = ap (◌∷◌ row) (without-nil rows)

-- Taking away one directory more.
length-without-cons :
    (g : Text) (gone : List Text) (rows : List WatchRow)
    → Distinct (row_dirs rows)
    → has_text g gone ≡ false
    → length (without gone rows)
      ≡ length (without (g ∷ gone) rows) + (if has_text g (row_dirs rows) then 1 else 0)
unfolding without
length-without-cons g gone [] h n = omega arith
length-without-cons g gone (row ∷ rows) h n =
    ground
      (arith, text_eq_iff g row.dir, text_eq_iff row.dir g, length-without-cons g gone rows h.1 n)

-- Taking away distinct directories of the table takes away as many rows.
length-without :
    (gone : List Text) (rows : List WatchRow)
    → Distinct (row_dirs rows)
    → Distinct gone
    → All (λ dir. has_text dir (row_dirs rows) ≡ true) gone
    → length (without gone rows) + length gone ≡ length rows
length-without [] rows h d a = rw without-nil (omega arith)
length-without (g ∷ gone) rows h d a =
    ground (arith, length-without-cons g gone rows h d.0, length-without gone rows h d.1 a.1)

-- A trimmed table has at most `n` rows.
pub Trims-length-le :
    (n : ℕ) (rows rows' : List WatchRow)
    → Distinct (row_dirs rows)
    → Trims n rows rows'
    → length rows' ≤ n
Trims-length-le n rows rows' h v =
    rw v.left (omega (arith, v.count, length-without v.gone rows h (v.each_once h) v.among))
