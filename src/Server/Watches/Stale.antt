-- ===== src/Server/Watches/Stale.antt =====
-- The watches whose directories are gone from the database, and how a run of syncWatches
-- (watch_daemon/api_impl.go) reduces their number.
use golang_time_tracker.Base.{
  ℕ, ◌+◌, ◌<◌, ◌≤◌, ◌≡◌, ◌≢◌, refl, Bool, true, false, not, ◌||◌, List, [], ◌∷◌, none, arith,
  if◌then◌else◌, length, drop, All, Bool-cases, inl, inr,
}
use golang_time_tracker.Base.Text.{Text, text_lt, text_eq, text_lt_irrefl, text_eq_iff}
use golang_time_tracker.Base.Sorting.{Sorted, has_text}
use golang_time_tracker.Base.Table.{lookup, insert, delete, keys}
use golang_time_tracker.Server.Watches.{DbWatchInfo, Watches, create}
use golang_time_tracker.Server.Watches.Relation.{
  Align, stops, keeps, creates, removes, removed, Sorted-drop, All-drop,
}
use golang_time_tracker.Server.Watches.Align.{dirs}
use golang_time_tracker.Server.Watches.Agree.{PrecedesDb-absent, Precedes-all}

-- The directory is not in the database.
abbrev is_stale : List DbWatchInfo → Text → Bool
is_stale db k = not (has_text k (dirs db))

abbrev pub stale_count : List DbWatchInfo → List Text → ℕ
stale_count db [] = 0
stale_count db (k ∷ ks) = (if is_stale db k then 1 else 0) + stale_count db ks

abbrev pub any_stale : List DbWatchInfo → List Text → Bool
any_stale db [] = false
any_stale db (k ∷ ks) = is_stale db k || any_stale db ks

module _ (db : List DbWatchInfo) where
  stale_count-insert :
      (k : Text) (v : ℕ) (m : List (Text × ℕ))
      → has_text k (dirs db) ≡ true
      → stale_count db (keys (insert k v m)) ≡ stale_count db (keys m)
  unfolding insert
  stale_count-insert k v [] h = ground arith
  stale_count-insert k v ((i, w) ∷ m) h = elim (Bool-cases (text_eq i k)) [
    | inl e ↦ rw (e, (text_eq_iff i k).0 e) refl
    | inr e ↦ rw e (omega (arith, stale_count-insert k v m h))
  ]

  stale_count-delete-le :
      (k : Text) (m : List (Text × ℕ))
      → stale_count db (keys (delete k m)) ≤ stale_count db (keys m)
  unfolding delete
  stale_count-delete-le k [] = omega arith
  stale_count-delete-le k ((i, w) ∷ m) = ground (arith, stale_count-delete-le k m)

  stale_count-delete-lt :
      (k : Text) (m : List (Text × ℕ))
      → is_stale db k ≡ true
      → lookup k m ≢ none
      → stale_count db (keys (delete k m)) < stale_count db (keys m)
  unfolding delete lookup
  stale_count-delete-lt k [] h p = absurd (p refl)
  stale_count-delete-lt k ((i, w) ∷ m) h p = elim (Bool-cases (text_eq i k)) [
    | inl e ↦ rw (e, (text_eq_iff i k).0 e, h) (omega (arith, stale_count-delete-le k m))
    | inr e ↦ rw e (omega (arith, stale_count-delete-lt k m h (rw e at p)))
  ]

  -- Of the existing watches left, the database holds just those that are in the rest of its list.
  abbrev Agrees : List DbWatchInfo → List Text → Type 0
  Agrees ds es = All (λ e. has_text e (dirs db) ≡ has_text e (dirs ds)) es

  Agrees-skip :
      (d : DbWatchInfo) (ds : List DbWatchInfo) (es : List Text)
      → All (λ f. text_lt d.dir f ≡ true) es
      → Agrees (d ∷ ds) es
      → Agrees ds es
  Agrees-skip d ds [] h a = tt
  Agrees-skip d ds (e ∷ es) h a =
      (ground (arith, text_eq_iff d.dir e, text_lt_irrefl e), Agrees-skip d ds es h.1 a.1)

  abbrev AreDirs : List DbWatchInfo → Type 0
  AreDirs ds = All (λ k. has_text k (dirs db) ≡ true) (dirs ds)

  abbrev left : Watches → ℕ
  left s = stale_count db (keys s.watches)

  create-left :
      (d : DbWatchInfo) (s : Watches) → has_text d.dir (dirs db) ≡ true → left (create d s) ≡ left s
  unfolding create
  create-left d s h = stale_count-insert d.dir (length s.heap) s.watches h

  -- A run never adds a stale watch, and removes one at least if there is any.
  pub Align-left :
      (es : List Text) (ds : List DbWatchInfo) (s t : Watches)
      → Align es ds s t
      → Sorted es
      → Sorted (dirs ds)
      → Agrees ds es
      → AreDirs ds
      → (left t ≤ left s) × (any_stale db es ≡ true → left t < left s)
  Align-left _ _ s t stops so sd a b = (omega arith, λ h. cc)
  Align-left _ _ s t (keeps {e = e} {es = es} {d = d} {ds = ds} same rest) so sd a b =
      let (le, lt) =
        Align-left es ds s t rest so.1 sd.1 (Agrees-skip d ds es (rw same at so.0) a.1) b.1 in
      (le, λ h. lt (ground (arith, text_eq_iff d.dir e)))
  Align-left _ _ s t (creates {es = es} {d = d} {ds = ds} before rest) so sd a b =
      let (le, lt) =
        Align-left es ds (create d s) t rest so sd.1
          (Agrees-skip d ds es (Precedes-all d.dir es before so) a) b.1 in
      (omega (arith, create-left d s b.0), λ h. omega (arith, create-left d s b.0, lt h))
  Align-left _ _ s t (removes {e = e} {es = es} {ds = ds} {w = w} before found rest) so sd a b =
      let (le, lt) =
        Align-left (drop 1 es) ds (removed e w s) t rest (Sorted-drop es so.1) sd
          (All-drop _ es a.1) b in
      let fewer : left (removed e w s) < left s =
        stale_count-delete-lt e s.watches (ground (arith, PrecedesDb-absent e ds before sd))
          (λ n. cc) in
      (omega arith, λ h. omega arith)

  pub any_stale-sort :
      (ks : List Text)
      → any_stale db ks ≡ false
      → (k : Text) → has_text k ks ≡ true
      → has_text k (dirs db) ≡ true
  any_stale-sort [] h k p = cc
  any_stale-sort (j ∷ ks) h k p = elim (Bool-cases (text_eq j k)) [
    | inl e ↦ rw (← (text_eq_iff j k).0 e) (ground arith)
    | inr e ↦ any_stale-sort ks (ground arith) k (ground arith)
  ]

  pub stale_count-zero :
      (ks : List Text)
      → ((k : Text) → has_text k ks ≡ true → has_text k (dirs db) ≡ true)
      → stale_count db ks ≡ 0
  stale_count-zero [] h = refl
  stale_count-zero (k ∷ ks) h = ground (
    arith,
    h k (ground (arith, text_eq_iff k k)),
    stale_count-zero ks (λ j p. h j (ground arith)),
  )

  pub none_stale :
      (ks : List Text)
      → stale_count db ks ≡ 0
      → (k : Text) → has_text k ks ≡ true
      → has_text k (dirs db) ≡ true
  none_stale [] h k p = cc
  none_stale (j ∷ ks) h k p = elim (Bool-cases (text_eq j k)) [
    | inl e ↦ rw (← (text_eq_iff j k).0 e) (ground arith)
    | inr e ↦ none_stale ks (ground arith) k (ground arith)
  ]

  pub Agrees-all : (es : List Text) → Agrees db es
  Agrees-all [] = tt
  Agrees-all (e ∷ es) = (refl, Agrees-all es)

  pub AreDirs_all :
      (ks : List Text)
      → ((k : Text) → has_text k ks ≡ true → has_text k (dirs db) ≡ true)
      → All (λ k. has_text k (dirs db) ≡ true) ks
  AreDirs_all [] h = tt
  AreDirs_all (k ∷ ks) h =
      (h k (ground (arith, text_eq_iff k k)), AreDirs_all ks (λ j p. h j (ground arith)))
