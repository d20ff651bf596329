-- ===== src/Server/Watches/Relation.antt =====
-- What a run of the loop of syncWatches (watch_daemon/api_impl.go) comes to, as a relation on what
-- is left of its lists.
use golang_time_tracker.Base.{
  ℕ, zero, suc, ◌≤◌, ◌≡◌, ◌≢◌, refl, true, List, [], ◌∷◌, none, some, arith, length, get_elem?,
  drop, All,
}
use golang_time_tracker.Base.Text.{Text, text_lt, text_lt_irrefl, text_eq_iff}
use golang_time_tracker.Base.Sorting.{Sorted}
use golang_time_tracker.Base.Table.{lookup, delete, lookup-insert, lookup-delete}
use golang_time_tracker.Server.Watches.{DbWatchInfo, Watches, cancel_at, create, remove_at}

-- The watches once `dir` is removed, where it is a key.
abbrev pub removed : Text → ℕ → Watches → Watches
removed dir w s = record { heap = cancel_at w s.heap; watches = delete dir s.watches }

-- `dir` comes after every directory of the slice.
abbrev pub Precedes : Text → List Text → Type 0
Precedes dir [] = Unit {0}
Precedes dir (e ∷ es) = text_lt dir e ≡ true

abbrev pub PrecedesDb : Text → List DbWatchInfo → Type 0
PrecedesDb dir [] = Unit {0}
PrecedesDb dir (d ∷ ds) = text_lt dir d.dir ≡ true

-- `Align es ds s t`: from the watches `s`, with `es` left of the existing watches and `ds` of those
-- of the database, the loop comes to `t`. A removal also passes over the next existing watch.
pub data Align : List Text → List DbWatchInfo → Watches → Watches → Type 0 where
  stops : {s : Watches} → Align [] [] s s
  keeps :
      {e : Text} {es : List Text} {d : DbWatchInfo} {ds : List DbWatchInfo} {s t : Watches}
      → e ≡ d.dir
      → Align es ds s t
      → Align (e ∷ es) (d ∷ ds) s t
  creates :
      {es : List Text} {d : DbWatchInfo} {ds : List DbWatchInfo} {s t : Watches}
      → Precedes d.dir es
      → Align es ds (create d s) t
      → Align es (d ∷ ds) s t
  removes :
      {e : Text} {es : List Text} {ds : List DbWatchInfo} {s t : Watches} {w : ℕ}
      → PrecedesDb e ds
      → lookup e s.watches ≡ some w
      → Align (drop 1 es) ds (removed e w s) t
      → Align (e ∷ es) ds s t

abbrev pub AreKeys : List Text → Watches → Type 0
AreKeys es s = All (λ e. lookup e s.watches ≢ none) es

module _ {ℓ} {A : Type ℓ} where
  pub get_elem?-drop_nil : (xs : List A) (i : ℕ) → drop i xs ≡ [] → get_elem? xs i ≡ none
  get_elem?-drop_nil [] i h = refl
  get_elem?-drop_nil (x ∷ xs) zero h = cc
  get_elem?-drop_nil (x ∷ xs) (suc i) h = get_elem?-drop_nil xs i h

  pub get_elem?-drop_cons :
      (xs : List A) (i : ℕ) (x : A) (r : List A)
      → drop i xs ≡ x ∷ r
      → (get_elem? xs i ≡ some x)
        × (drop (suc i) xs ≡ r)
        × (drop (suc i) (remove_at i xs) ≡ drop 1 r)
  unfolding remove_at
  get_elem?-drop_cons [] zero x r h = cc
  get_elem?-drop_cons [] (suc i) x r h = cc
  get_elem?-drop_cons (y ∷ xs) zero x r h = (ground arith, ground arith, ground arith)
  get_elem?-drop_cons (y ∷ xs) (suc i) x r h = get_elem?-drop_cons xs i x r h

pub AreKeys-create :
    (es : List Text) (d : DbWatchInfo) (s : Watches) → AreKeys es s → AreKeys es (create d s)
unfolding create
AreKeys-create [] d s h = tt
AreKeys-create (e ∷ es) d s h =
    (rw (lookup-insert d.dir e (length s.heap) s.watches) (ground arith), AreKeys-create es d s h.1)

pub AreKeys-removed :
    (es : List Text) (e : Text) (w : ℕ) (s : Watches)
    → All (λ f. text_lt e f ≡ true) es
    → AreKeys es s
    → AreKeys es (removed e w s)
AreKeys-removed [] e w s o h = tt
AreKeys-removed (f ∷ es) e w s o h = (
  rw (lookup-delete e f s.watches) (ground (arith, text_eq_iff e f, text_lt_irrefl e)),
  AreKeys-removed es e w s o.1 h.1,
)

pub All-drop {κ} : (P : Text → Type κ) (es : List Text) → All P es → All P (drop 1 es)
All-drop P [] h = tt
All-drop P (e ∷ es) h = h.1

pub Sorted-drop : (es : List Text) → Sorted es → Sorted (drop 1 es)
Sorted-drop [] h = tt
Sorted-drop (e ∷ es) h = h.1

pub length-drop_le : (es : List Text) → length (drop 1 es) ≤ length es
length-drop_le [] = omega arith
length-drop_le (e ∷ es) = omega arith
