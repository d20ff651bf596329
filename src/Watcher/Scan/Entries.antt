-- ===== src/Watcher/Scan/Entries.antt =====
-- The loop of add in pkg/watcher/watcher.go over the entries of a directory that does not change.
use golang_time_tracker.Base.{
  ◌≡◌, refl, sym, ap, ◌∙◌, Bool, true, false, ◌||◌, List, [], ◌∷◌, ◌++◌, All, arith, if◌then◌else◌,
  Bool-cases, inl, inr,
}
use mathlib.Core.List.{append_assoc, append-nil}
use golang_time_tracker.Base.Int.{ℤ}
use golang_time_tracker.Base.Text.{Text}
use golang_time_tracker.Base.Sorting.{has_text}
use golang_time_tracker.Base.Paths.{path_join}
use golang_time_tracker.Watcher.{
  WatchEvent, ChildInfo, Os, Ended, finished, ◌>>=◌, wd_lookup, FileWatcher,
}
use golang_time_tracker.Watcher.Scan.{is_skipped, child_event, add_children}
use golang_time_tracker.Watcher.Scan.Static.{
  entry_events, entries_events, dir_paths, paths, Fresh, Fresh-subset, Fresh-append,
  has_text-append, dir_paths-append, paths-append, dir_paths-paths, last_of, last_of-append,
  Scanned,
}

module _ (O : Os) (wd : Text → ℤ) where
  Scanned-then :
      (w : FileWatcher O) (es fs : List WatchEvent) (r : Ended (FileWatcher O))
      (f : FileWatcher O → Ended (FileWatcher O))
      → Scanned O wd w es (dir_paths es) r
      → ((v : FileWatcher O)
          → ((k : Text)
              → has_text k v.watched_dirs ≡ has_text k w.watched_dirs || has_text k (dir_paths es))
          → Scanned O wd v fs (dir_paths fs) (f v))
      → Scanned O wd w (es ++ fs) (dir_paths (es ++ fs)) (r >>= f)
  Scanned-then w es fs r f (v, (end, (said, (seen, known)))) next =
      let (u, (end', (said', (seen', known')))) = next v seen in
      (
        u,
        (
          ap (λ r. r >>= f) end ∙ end',
          (
            said' ∙ ap (λ s. s ++ fs) said ∙ append_assoc w.called es fs,
            (
              λ k. ground (
                arith,
                seen k,
                seen' k,
                has_text-append k (dir_paths es) (dir_paths fs),
                ap (has_text k) (dir_paths-append es fs),
              ),
              λ i.
                  known' i
                  ∙ ap (last_of wd i (dir_paths fs)) (known i)
                  ∙ sym
                      (last_of-append wd i (dir_paths es) (dir_paths fs) (wd_lookup i w.wd_to_path))
                  ∙ ap (λ ds. last_of wd i ds (wd_lookup i w.wd_to_path))
                      (sym (dir_paths-append es fs)),
            ),
          ),
        ),
      )

  Scanned-none : (w : FileWatcher O) → Scanned O wd w [] (dir_paths []) (finished w)
  unfolding dir_paths last_of
  Scanned-none w = (w, (refl, (sym (append-nil w.called), (λ k. ground arith, λ i. refl))))

skipped_events :
    (below : Text → List WatchEvent) (p : Text) (info : ChildInfo)
    → is_skipped info.name ≡ true
    → entry_events below p info ≡ []
unfolding entry_events
skipped_events below p info h = rw h refl

pub entry_events_lem :
    (below : Text → List WatchEvent) (p : Text) (info : ChildInfo)
    → is_skipped info.name ≡ false
    → entry_events below p info
      ≡ child_event p info ∷ (if info.is_dir then below (path_join p info.name) else [])
unfolding entry_events
entry_events_lem below p info h = rw h refl

pub dir_paths_dir :
    (e : WatchEvent) (es : List WatchEvent)
    → e.is_dir ≡ true
    → dir_paths (e ∷ es) ≡ e.path ∷ dir_paths es
unfolding dir_paths
dir_paths_dir e es h = rw h refl

pub dir_paths_file :
    (e : WatchEvent) (es : List WatchEvent) → e.is_dir ≡ false → dir_paths (e ∷ es) ≡ dir_paths es
unfolding dir_paths
dir_paths_file e es h = rw h refl

module _ (O : Os) (wd : Text → ℤ) (cb : List WatchEvent → WatchEvent → Bool) where
  -- That applyWatchEvent does for the entry `info` of `p` what it should.
  unfoldable pub AppliesTo :
      (WatchEvent → FileWatcher O → Ended (FileWatcher O))
      → (Text → List WatchEvent)
      → Text
      → ChildInfo
      → Type 0
  AppliesTo apply below p info =
      is_skipped info.name ≡ false
      → (v : FileWatcher O)
      → Fresh (λ k. has_text k v.watched_dirs) (paths (entry_events below p info))
      → Scanned O wd v (entry_events below p info) (dir_paths (entry_events below p info))
          (apply (child_event p info) v)

  module _ (apply : WatchEvent → FileWatcher O → Ended (FileWatcher O))
      (below : Text → List WatchEvent) (p : Text) where
    entry-Scanned :
        (info : ChildInfo) (w : FileWatcher O)
        → AppliesTo apply below p info
        → Fresh (λ k. has_text k w.watched_dirs) (paths (entry_events below p info))
        → Scanned O wd w
            (entry_events below p info)
            (dir_paths (entry_events below p info))
            (if is_skipped info.name then finished w else apply (child_event p info) w)
    unfolding AppliesTo
    entry-Scanned info w h fresh = elim (Bool-cases (is_skipped info.name)) [
      | inl s ↦ rw (s, skipped_events below p info s) (Scanned-none O wd w)
      | inr s ↦ rw s (h s w fresh)
    ]

    -- The loop over the entries.
    pub add_children-Scanned :
        (infos : List ChildInfo) (w : FileWatcher O)
        → All (AppliesTo apply below p) infos
        → Fresh (λ k. has_text k w.watched_dirs) (paths (entries_events below p infos))
        → Scanned O wd w
            (entries_events below p infos)
            (dir_paths (entries_events below p infos))
            (add_children O cb apply p infos w)
    unfolding entries_events add_children
    add_children-Scanned [] w h fresh = Scanned-none O wd w
    add_children-Scanned (info ∷ infos) w (h, hs) fresh =
        let here = entry_events below p info in
        let there = entries_events below p infos in
        let (now, later) =
          Fresh-append (λ k. has_text k w.watched_dirs) (paths here) (paths there)
            (rw (sym (paths-append here there)) fresh) in
        Scanned-then O wd w here there _ (add_children O cb apply p infos)
          (entry-Scanned info w h now)
          (λ v seen. add_children-Scanned infos v hs (
            Fresh-subset _ (λ k. has_text k v.watched_dirs) (paths there)
              (λ k l. ground (arith, seen k, l, dir_paths-paths k here)) later))
