-- ===== src/Watcher/Scan/Depth.antt =====
-- More fuel than a tree of directories has levels changes nothing in what a scan is to find.
use golang_time_tracker.Base.{
  ℕ, zero, suc, ◌+◌, ◌-◌, ◌≤◌, ◌≡◌, refl, ap, ◌∙◌, true, false, List, [], ◌∷◌, ◌++◌, All, All_imp,
  arith, if◌then◌else◌, Bool-cases, inl, inr,
}
use golang_time_tracker.Base.Text.{Text}
use golang_time_tracker.Base.Paths.{path_join}
use golang_time_tracker.Watcher.{WatchEvent, ChildInfo}
use golang_time_tracker.Watcher.Scan.{is_skipped, child_event}
use golang_time_tracker.Watcher.Scan.Static.{entry_events, entries_events, tree_events, HasDepth}

module _ (f g : Text → List WatchEvent) (p : Text) where
  Agrees : ChildInfo → Type 0
  Agrees info =
      is_skipped info.name ≡ false
      → info.is_dir ≡ true
      → f (path_join p info.name) ≡ g (path_join p info.name)

  entry_events-ext :
      (info : ChildInfo) → Agrees info → entry_events f p info ≡ entry_events g p info
  unfolding entry_events Agrees
  entry_events-ext info h = elim (Bool-cases (is_skipped info.name)) [
    | inl s ↦ rw (entry_events, s) refl
    | inr s ↦ elim (Bool-cases info.is_dir) [
      | inl d ↦ ap below (h s d)
      | inr d ↦ rw (entry_events, s, d) refl
    ]
  ]
    where
      below : List WatchEvent → List WatchEvent
      below es =
          if is_skipped info.name then [] else child_event p info ∷ (if info.is_dir then es else [])

  entries_events-ext :
      (infos : List ChildInfo)
      → All Agrees infos
      → entries_events f p infos ≡ entries_events g p infos
  unfolding entries_events
  entries_events-ext [] h = refl
  entries_events-ext (info ∷ infos) (h, hs) =
      ap (λ es. es ++ entries_events f p infos) (entry_events-ext info h)
      ∙ ap (◌++◌ (entry_events g p info)) (entries_events-ext infos hs)

module _ (listing : Text → List ChildInfo) where
  HasDepth-suc :
      (n : ℕ) (p : Text)
      → HasDepth listing n p
      → HasDepth listing (suc n) p × (tree_events listing (suc n) p ≡ tree_events listing n p)
  unfolding HasDepth tree_events Agrees
  HasDepth-suc zero p h = (
    All_imp _ _ (listing p) (λ info s v d. cc) h,
    entries_events-ext (tree_events listing 0) (λ q. []) p (listing p)
        (All_imp _ _ (listing p) (λ info s v d. cc) h),
  )
  HasDepth-suc (suc n) p h = (
    All_imp _ _ (listing p)
        (λ info deeper v d. (HasDepth-suc n (path_join p info.name) (deeper v d)).0) h,
    entries_events-ext (tree_events listing (suc n)) (tree_events listing n) p (listing p) (
        All_imp _ _ (listing p)
          (λ info deeper v d. (HasDepth-suc n (path_join p info.name) (deeper v d)).1) h),
  )

  HasDepth-add :
      (k n : ℕ) (p : Text)
      → HasDepth listing n p
      → HasDepth listing (k + n) p × (tree_events listing (k + n) p ≡ tree_events listing n p)
  HasDepth-add zero n p h = let e : 0 + n ≡ n = omega arith in rw e (h, refl)
  HasDepth-add (suc k) n p h =
      let e : suc k + n ≡ suc (k + n) = omega arith in
      let (deep, same) = HasDepth-add k n p h in
      let (deep', same') = HasDepth-suc (k + n) p deep in rw e (deep', same' ∙ same)

  pub HasDepth-le :
      (n fuel : ℕ) (p : Text)
      → n ≤ fuel
      → HasDepth listing n p
      → HasDepth listing fuel p × (tree_events listing fuel p ≡ tree_events listing n p)
  HasDepth-le n fuel p le h =
      let e : fuel - n + n ≡ fuel = omega (arith, le) in rw e at (HasDepth-add (fuel - n) n p h)
