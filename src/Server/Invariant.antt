-- ===== src/Server/Invariant.antt =====
-- watch_daemon/api_impl.go: what holds of the server between its calls.
use golang_time_tracker.Base.{
  ℕ, ◌≡◌, ◌↔◌, refl, Bool, false, List, [], ◌∷◌, ◌++◌, none, arith, All, All-snoc, Bool-cases, inl,
  inr,
}
use golang_time_tracker.Base.Int.{ℤ}
use golang_time_tracker.Base.Text.{Text, text_eq_iff, has_prefix, has_prefix-append}
use golang_time_tracker.Base.Sorting.{Distinct, has_text}
use golang_time_tracker.Database.{WatchRow}
use golang_time_tracker.Database.Rules.{Trims, IsVerbatim, row_dirs, without, set_where}
use mathlib.Core.List.{append-nil}
use golang_time_tracker.Database.Tables.{row_dirs-set_where, row_dirs-append, All-without}
use golang_time_tracker.Server.Watches.{DbWatchInfo}
use golang_time_tracker.Server.Watches.Align.{dirs}
use golang_time_tracker.Server.Handlers.{conflict}

-- Neither directory's path begins with the other's.
abbrev pub Apart : Text → Text → Type 0
Apart d e = (has_prefix d e ≡ false) × (has_prefix e d ≡ false)

abbrev PrefixFree : List Text → Type 0
PrefixFree [] = Unit {0}
PrefixFree (d ∷ ds) = All (Apart d) ds × PrefixFree ds

-- addWatchToDB finds no conflict exactly if the path of the directory neither begins with that of a
-- watched one nor is the beginning of one, as a text: /foo and /foobar conflict too.
pub conflict_iff :
    (dir : Text) (ws : List DbWatchInfo) → (conflict dir ws ≡ none) ↔ All (Apart dir) (dirs ws)
unfolding conflict
conflict_iff dir [] = ((λ e. tt), (λ h. refl))
conflict_iff dir (w ∷ ws) =
    let (to, from) = conflict_iff dir ws in
    ((λ e. ground (arith, to)), (λ h. ground (arith, from h.1)))

Apart-refl : (d : Text) → ¬ Apart d d
Apart-refl d h = ground (arith, has_prefix-append d [], append-nil d)

PrefixFree-Distinct : (ds : List Text) → PrefixFree ds → Distinct ds
PrefixFree-Distinct [] h = tt
PrefixFree-Distinct (d ∷ ds) h = (absent d ds h.0, PrefixFree-Distinct ds h.1)
  where
    absent : (d : Text) (ds : List Text) → All (Apart d) ds → has_text d ds ≡ false
    absent d [] h = refl
    absent d (e ∷ ds) h = ground (arith, absent d ds h.1, text_eq_iff e d, Apart-refl d)

PrefixFree-snoc :
    (ds : List Text) (d : Text) → PrefixFree ds → All (Apart d) ds → PrefixFree (ds ++ d ∷ [])
PrefixFree-snoc [] d h a = (tt, tt)
PrefixFree-snoc (e ∷ ds) d h a = (snoc e ds h.0 (a.0.1, a.0.0), PrefixFree-snoc ds d h.1 a.1)
  where
    snoc : (e : Text) (ds : List Text) → All (Apart e) ds → Apart e d → All (Apart e) (ds ++ d ∷ [])
    snoc e [] h k = (k, tt)
    snoc e (f ∷ ds) h k = (h.0, snoc e ds h.1 k)

PrefixFree-without :
    (gone : List Text) (rows : List WatchRow)
    → PrefixFree (row_dirs rows)
    → PrefixFree (row_dirs (without gone rows))
unfolding without
PrefixFree-without gone [] h = tt
PrefixFree-without gone (row ∷ rows) h = elim (Bool-cases (has_text row.dir gone)) [
  | inl e ↦ rw e (PrefixFree-without gone rows h.1)
  | inr e ↦ rw e (All-without (Apart row.dir) gone rows h.0, PrefixFree-without gone rows h.1)
]

-- The table `watches` holds no directory twice and none below another, and the map no key twice.
pub record IsTable (rows : List WatchRow) : Type 0 where
  pub verbatim : All IsVerbatim (row_dirs rows)
  pub apart : PrefixFree (row_dirs rows)
  pub labels : All (λ row. IsVerbatim row.label) rows

pub IsTable-Distinct : (rows : List WatchRow) → IsTable rows → Distinct (row_dirs rows)
IsTable-Distinct rows v = PrefixFree-Distinct (row_dirs rows) v.apart

pub IsTable-nil : IsTable []
IsTable-nil = record { verbatim = tt; apart = tt; labels = tt }

pub IsTable-append :
    (rows : List WatchRow) (row : WatchRow)
    → IsTable rows
    → IsVerbatim row.dir
    → IsVerbatim row.label
    → All (Apart row.dir) (row_dirs rows)
    → IsTable (rows ++ row ∷ [])
IsTable-append rows row v h hl a = record {
  verbatim =
      rw (row_dirs-append rows row) (All-snoc IsVerbatim (row_dirs rows) row.dir v.verbatim h);
  apart = rw (row_dirs-append rows row) (PrefixFree-snoc (row_dirs rows) row.dir v.apart a);
  labels = All-snoc (λ r. IsVerbatim r.label) rows row v.labels hl;
}

labels-without :
    (gone : List Text) (rows : List WatchRow)
    → All (λ row. IsVerbatim row.label) rows
    → All (λ row. IsVerbatim row.label) (without gone rows)
unfolding without
labels-without gone [] h = tt
labels-without gone (row ∷ rows) h = elim (Bool-cases (has_text row.dir gone)) [
  | inl e ↦ rw e (labels-without gone rows h.1)
  | inr e ↦ rw e (h.0, labels-without gone rows h.1)
]

pub IsTable-Trims :
    (n : ℕ) (rows rows' : List WatchRow) → IsTable rows → Trims n rows rows' → IsTable rows'
IsTable-Trims n rows rows' v t = rw t.left (record {
  verbatim = All-without IsVerbatim t.gone rows v.verbatim;
  apart = PrefixFree-without t.gone rows v.apart;
  labels = labels-without t.gone rows v.labels;
})

labels-set_where :
    (t : ℤ) (hit : WatchRow → Bool) (rows : List WatchRow)
    → All (λ row. IsVerbatim row.label) rows
    → All (λ row. IsVerbatim row.label) (set_where t hit rows)
unfolding set_where
labels-set_where t hit [] h = tt
labels-set_where t hit (row ∷ rows) h = elim (Bool-cases (hit row)) [
  | inl e ↦ rw e (h.0, labels-set_where t hit rows h.1)
  | inr e ↦ rw e (h.0, labels-set_where t hit rows h.1)
]

pub IsTable-set_where :
    (t : ℤ) (hit : WatchRow → Bool) (rows : List WatchRow)
    → IsTable rows
    → IsTable (set_where t hit rows)
IsTable-set_where t hit rows v = record {
  verbatim = rw (row_dirs-set_where t hit rows) v.verbatim;
  apart = rw (row_dirs-set_where t hit rows) v.apart;
  labels = labels-set_where t hit rows v.labels;
}
