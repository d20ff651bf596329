-- ===== src/Watcher/Scan/Static.antt =====
-- What add of pkg/watcher/watcher.go is to do on a tree of directories that does not change
-- meanwhile.
use golang_time_tracker.Base.{
  ℕ, zero, suc, ◌≡◌, refl, ap, Bool, true, false, ◌||◌, List, Option, some, [], ◌∷◌, ◌++◌, map, All,
  arith, if◌then◌else◌, Bool-cases, inl, inr,
}
use golang_time_tracker.Base.Int.{ℤ, eqb_ℤ}
use golang_time_tracker.Base.Text.{Text, text_eq, text_eq_iff}
use golang_time_tracker.Base.Sorting.{has_text}
use golang_time_tracker.Base.Paths.{path_join}
use golang_time_tracker.Watcher.{
  WatchEvent, ChildInfo, success, Os, Ended, finished, wd_lookup, wd_insert, set_insert,
  FileWatcher,
}
use golang_time_tracker.Watcher.Scan.{is_skipped, child_event}

-- Every system call succeeds, a directory holds what `listing` says, and the callback succeeds.
pub record Static (O : Os) (cb : List WatchEvent → WatchEvent → Bool)
    (listing : Text → List ChildInfo) : Type 0 where
  pub wd : Text → ℤ
  pub watches : (p : Text) (k : O.Kernel) → (O.add_watch p k).0 ≡ success (wd p)
  pub opens : (p : Text) (k : O.Kernel) → (O.open_dir p k).0 ≡ success record {}
  pub reads : (p : Text) (k : O.Kernel) → (O.read_dir p k).0 ≡ success (listing p)
  pub closes : (p : Text) (k : O.Kernel) → (O.close_dir p k).0 ≡ success record {}
  pub accepts : (es : List WatchEvent) (e : WatchEvent) → cb es e ≡ true

-- The events for an entry: its own and, for a directory, those for what is below it.
unfoldable pub entry_events : (Text → List WatchEvent) → Text → ChildInfo → List WatchEvent
entry_events below p info =
    if is_skipped info.name
    then []
    else child_event p info ∷ (if info.is_dir then below (path_join p info.name) else [])

unfoldable pub entries_events : (Text → List WatchEvent) → Text → List ChildInfo → List WatchEvent
entries_events below p [] = []
entries_events below p (info ∷ infos) = entry_events below p info ++ entries_events below p infos

module _ (listing : Text → List ChildInfo) where
  -- The events for what is below a directory, each directory before its entries, n levels deep.
  unfoldable pub tree_events : ℕ → Text → List WatchEvent
  tree_events zero p = entries_events (λ q. []) p (listing p)
  tree_events (suc n) p = entries_events (tree_events n) p (listing p)

  -- Below a directory there are at most n levels of entries that a scan does not leave out.
  unfoldable pub HasDepth : ℕ → Text → Type 0
  HasDepth zero p = All (λ info. is_skipped info.name ≡ true) (listing p)
  HasDepth (suc n) p =
      All
        (λ info.
          is_skipped info.name ≡ false → info.is_dir ≡ true → HasDepth n (path_join p info.name))
        (listing p)

-- The directories among the events.
unfoldable pub dir_paths : List WatchEvent → List Text
dir_paths [] = []
dir_paths (e ∷ es) = if e.is_dir then e.path ∷ dir_paths es else dir_paths es

abbrev pub paths : List WatchEvent → List Text
paths = map (λ e. e.path)

-- No path comes twice, and none is in the set `s`.
unfoldable pub Fresh : (Text → Bool) → List Text → Type 0
Fresh s [] = Unit {0}
Fresh s (q ∷ qs) = (s q ≡ false) × Fresh (λ k. s k || text_eq q k) qs

pub Fresh-subset :
    (s t : Text → Bool) (qs : List Text)
    → ((k : Text) → s k ≡ false → t k ≡ false)
    → Fresh s qs
    → Fresh t qs
unfolding Fresh
Fresh-subset s t [] sub h = record {}
Fresh-subset s t (q ∷ qs) sub (h, hs) = (
  sub q h,
  Fresh-subset (λ k. s k || text_eq q k) (λ k. t k || text_eq q k) qs
      (λ k l. ground (arith, sub k, l)) hs,
)

pub Fresh-append :
    (s : Text → Bool) (xs bs : List Text)
    → Fresh s (xs ++ bs)
    → Fresh s xs × Fresh (λ k. s k || has_text k xs) bs
unfolding Fresh
Fresh-append s [] bs h =
    (record {}, Fresh-subset s (λ k. s k || false) bs (λ k l. ground (arith, l)) h)
Fresh-append s (q ∷ xs) bs (h, hs) =
    let (now, later) = Fresh-append (λ k. s k || text_eq q k) xs bs hs in
    (
      (h, now),
      Fresh-subset (λ k. (s k || text_eq q k) || has_text k xs)
          (λ k. s k || (text_eq q k || has_text k xs)) bs (λ k l. ground (arith, l)) later,
    )

pub has_text-append :
    (k : Text) (xs bs : List Text) → has_text k (xs ++ bs) ≡ has_text k xs || has_text k bs
has_text-append k [] bs = refl
has_text-append k (a ∷ xs) bs = ground (arith, has_text-append k xs bs)

pub dir_paths-append :
    (xs bs : List WatchEvent) → dir_paths (xs ++ bs) ≡ dir_paths xs ++ dir_paths bs
unfolding dir_paths
dir_paths-append [] bs = refl
dir_paths-append (e ∷ xs) bs = elim (Bool-cases e.is_dir) [
  | inl d ↦ rw (dir_paths, d, dir_paths-append xs bs) refl
  | inr d ↦ rw (dir_paths, d, dir_paths-append xs bs) refl
]

pub paths-append : (xs bs : List WatchEvent) → paths (xs ++ bs) ≡ paths xs ++ paths bs
paths-append [] bs = refl
paths-append (e ∷ xs) bs = ap (◌∷◌ e.path) (paths-append xs bs)

-- A directory is one of the paths.
pub dir_paths-paths :
    (k : Text) (es : List WatchEvent)
    → has_text k (paths es) ≡ false
    → has_text k (dir_paths es) ≡ false
unfolding dir_paths
dir_paths-paths k [] h = refl
dir_paths-paths k (e ∷ es) h = ground (arith, h, dir_paths-paths k es)

pub has_text-set_insert :
    (k p : Text) (ws : List Text) → has_text k (set_insert p ws) ≡ has_text k ws || text_eq p k
unfolding set_insert
has_text-set_insert k p [] = ground arith
has_text-set_insert k p (w ∷ ws) = ground (arith, text_eq_iff w p, has_text-set_insert k p ws)

-- The last of the directories whose watch descriptor is `i`, and otherwise what is known of it
-- before.
unfoldable pub last_of : (Text → ℤ) → ℤ → List Text → Option Text → Option Text
last_of wd i [] known = known
last_of wd i (d ∷ ds) known = last_of wd i ds (if eqb_ℤ (wd d) i then some d else known)

pub last_of-append :
    (wd : Text → ℤ) (i : ℤ) (xs bs : List Text) (known : Option Text)
    → last_of wd i (xs ++ bs) known ≡ last_of wd i bs (last_of wd i xs known)
unfolding last_of
last_of-append wd i [] bs known = refl
last_of-append wd i (x ∷ xs) bs known =
    last_of-append wd i xs bs (if eqb_ℤ (wd x) i then some x else known)

pub wd_lookup-wd_insert :
    (i wd : ℤ) (p : Text) (m : List (ℤ × Text))
    → wd_lookup i (wd_insert wd p m) ≡ (if eqb_ℤ wd i then some p else wd_lookup i m)
unfolding wd_lookup wd_insert
wd_lookup-wd_insert i wd p [] = refl
wd_lookup-wd_insert i wd p ((v, old) ∷ m) = ground (arith, wd_lookup-wd_insert i wd p m)

-- That a piece of a scan finishes, has given the callback just `es`, has added the directories
-- among them to the watched ones and knows each of them by its watch descriptor.
abbrev pub Scanned :
    (O : Os)
    → (Text → ℤ)
    → FileWatcher O
    → List WatchEvent
    → List Text
    → Ended (FileWatcher O)
    → Type 0
Scanned O wd w es ds r =
    (w' : FileWatcher O) × ((r ≡ finished w')
      × ((w'.called ≡ w.called ++ es)
          × (((k : Text) → has_text k w'.watched_dirs ≡ has_text k w.watched_dirs || has_text k ds)
              × ((i : ℤ)
                  → wd_lookup i w'.wd_to_path ≡ last_of wd i ds (wd_lookup i w.wd_to_path)))))
