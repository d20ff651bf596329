-- ===== src/Watcher/Scan/Tree.antt =====
-- The scan of pkg/watcher/watcher.go, add and applyWatchEvent, on a tree of directories that does
-- not change meanwhile.
use golang_time_tracker.Base.{
  ◌≤◌, ℕ, zero, suc, ◌≡◌, refl, ap, ◌∙◌, Bool, true, false, ◌||◌, List, [], ◌∷◌, ◌++◌, All, All_imp,
  arith, if◌then◌else◌, if_true, if_false, Bool-cases, inl, inr,
}
use mathlib.Core.List.{append_assoc}
use golang_time_tracker.Base.Text.{Text, text_eq}
use golang_time_tracker.Base.Sorting.{has_text}
use golang_time_tracker.Base.Paths.{path_join}
use golang_time_tracker.Watcher.{
  WatchEvent, event_create, ChildInfo, Os, Ended, finished, wd_insert, set_insert, FileWatcher,
}
use golang_time_tracker.Watcher.Scan.{
  is_skipped, child_event, call_back, add_children, close_after, add_opened, add_watched, add_with,
  apply_with, apply_watch_event, add,
}
use golang_time_tracker.Watcher.Scan.Static.{
  Static, entry_events, entries_events, tree_events, HasDepth, dir_paths, paths, Fresh,
  Fresh-subset, has_text-set_insert, last_of, wd_lookup-wd_insert, Scanned,
}
use golang_time_tracker.Watcher.Scan.Depth.{HasDepth-le}
use golang_time_tracker.Watcher.Scan.Entries.{
  entry_events_lem, dir_paths_dir, dir_paths_file, AppliesTo, add_children-Scanned,
}

module _ (O : Os) (cb : List WatchEvent → WatchEvent → Bool) (listing : Text → List ChildInfo)
    (S : Static O cb listing) where
  -- The watcher once a directory is watched and its entries are read.
  watching : Text → FileWatcher O → FileWatcher O
  watching p w = record w {
    wd_to_path = wd_insert (S.wd p) p w.wd_to_path;
    watched_dirs = set_insert p w.watched_dirs;
    kernel = (O.read_dir p (O.open_dir p (O.add_watch p w.kernel).1).1).1;
  }

  add_with_lem :
      (apply : WatchEvent → FileWatcher O → Ended (FileWatcher O)) (p : Text) (d : Bool)
      (w : FileWatcher O)
      → add_with O cb apply (record { event_type = event_create; is_dir = d; path = p }) w
        ≡ close_after O cb p (add_children O cb apply p (listing p) (watching p w))
  unfolding watching add_with add_watched add_opened
  add_with_lem apply p d w =
      rw
        (
          add_with,
          S.watches p w.kernel,
          add_watched,
          S.opens p (O.add_watch p w.kernel).1,
          add_opened,
          S.reads p (O.open_dir p (O.add_watch p w.kernel).1).1,
        )
        refl

  close_after_lem :
      (p : Text) (w : FileWatcher O)
      → close_after O cb p (finished w)
        ≡ finished (record w { kernel = (O.close_dir p w.kernel).1 })
  unfolding close_after
  close_after_lem p w = rw (close_after, S.closes p w.kernel) refl

  -- add, where applyWatchEvent does for the entries what it should.
  add_with-Scanned :
      (apply : WatchEvent → FileWatcher O → Ended (FileWatcher O)) (below : Text → List WatchEvent)
      (p : Text) (d : Bool) (w : FileWatcher O)
      → All (AppliesTo O S.wd cb apply below p) (listing p)
      → Fresh
          (λ k. has_text k w.watched_dirs || text_eq p k)
          (paths (entries_events below p (listing p)))
      → Scanned O S.wd w
          (entries_events below p (listing p))
          (p ∷ dir_paths (entries_events below p (listing p)))
          (add_with O cb apply (record { event_type = event_create; is_dir = d; path = p }) w)
  unfolding watching last_of
  add_with-Scanned apply below p d w h fresh =
      let below_p = entries_events below p (listing p) in
      let (v, (end, (said, (seen, known)))) =
        add_children-Scanned O S.wd cb apply below p (listing p) (watching p w) h (
          Fresh-subset (λ k. has_text k w.watched_dirs || text_eq p k)
            (λ k. has_text k (set_insert p w.watched_dirs)) (paths below_p)
            (λ k l. has_text-set_insert k p w.watched_dirs ∙ l) fresh) in
      (
        record v { kernel = (O.close_dir p v.kernel).1 },
        (
          add_with_lem apply p d w ∙ ap (close_after O cb p) end ∙ close_after_lem p v,
          (
            said,
            (
              λ k. ground (arith, seen k, has_text-set_insert k p w.watched_dirs),
              λ i.
                  known i
                  ∙ ap (last_of S.wd i (dir_paths below_p))
                      (wd_lookup-wd_insert i (S.wd p) p w.wd_to_path),
            ),
          ),
        ),
      )

  -- applyWatchEvent, for the creation of what is not watched yet.
  apply_with_new :
      (add_it : WatchEvent → FileWatcher O → Ended (FileWatcher O)) (q : Text) (d : Bool)
      (v : FileWatcher O)
      → has_text q v.watched_dirs ≡ false
      → let e : WatchEvent = record { event_type = event_create; is_dir = d; path = q } in
        let told : FileWatcher O = record v { called = v.called ++ e ∷ [] } in
        apply_with O cb add_it e v ≡ (if d then add_it e told else finished told)
  unfolding apply_with call_back
  apply_with_new add_it q d v new =
      rw
        (
          apply_with,
          new,
          call_back,
          S.accepts v.called (record { event_type = event_create; is_dir = d; path = q }),
        )
        refl

  -- applyWatchEvent, for an entry of a directory.
  apply_with-AppliesTo :
      (add_it : WatchEvent → FileWatcher O → Ended (FileWatcher O)) (below : Text → List WatchEvent)
      (p : Text) (info : ChildInfo)
      → (is_skipped info.name ≡ false
          → info.is_dir ≡ true
          → (v : FileWatcher O)
          → Fresh
              (λ k. has_text k v.watched_dirs || text_eq (path_join p info.name) k)
              (paths (below (path_join p info.name)))
          → Scanned O S.wd v
              (below (path_join p info.name))
              (path_join p info.name ∷ dir_paths (below (path_join p info.name)))
              (add_it (child_event p info) v))
      → AppliesTo O S.wd cb (apply_with O cb add_it) below p info
  unfolding AppliesTo Fresh dir_paths last_of
  apply_with-AppliesTo add_it below p info h visible v fresh =
      let q = path_join p info.name in
      let e = child_event p info in
      let told : FileWatcher O = record v { called = v.called ++ e ∷ [] } in
      elim (Bool-cases info.is_dir) [
        | inl d ↦
            let events : entry_events below p info ≡ e ∷ below q =
              entry_events_lem below p info visible ∙ rw d refl in
            let (new, rest) : Fresh (λ k. has_text k v.watched_dirs) (q ∷ paths (below q)) =
              rw events at fresh in
            let (u, (end, (said, seen))) = h visible d told rest in
            rw (events, dir_paths_dir e (below q) d)
              (
                u,
                (
                  apply_with_new add_it q info.is_dir v new ∙ if_true info.is_dir _ _ d ∙ end,
                  (said ∙ append_assoc v.called (e ∷ []) (below q), seen),
                ),
              )
        | inr f ↦
            let events : entry_events below p info ≡ e ∷ [] =
              entry_events_lem below p info visible ∙ rw f refl in
            let (new, rest) : Fresh (λ k. has_text k v.watched_dirs) (q ∷ []) =
              rw events at fresh in
            rw (events, dir_paths_file e [] f)
              (
                told,
                (
                  apply_with_new add_it q info.is_dir v new ∙ if_false info.is_dir _ _ f,
                  (refl, (λ k. ground arith, λ i. refl)),
                ),
              )
      ]

  no_entries :
      (apply : WatchEvent → FileWatcher O → Ended (FileWatcher O)) (below : Text → List WatchEvent)
      (p : Text) (info : ChildInfo)
      → is_skipped info.name ≡ true
      → AppliesTo O S.wd cb apply below p info
  unfolding AppliesTo
  no_entries apply below p info h visible = cc

  add_exact :
      (n : ℕ) (p : Text) (d : Bool) (w : FileWatcher O)
      → HasDepth listing n p
      → Fresh (λ k. has_text k w.watched_dirs || text_eq p k) (paths (tree_events listing n p))
      → Scanned O S.wd w
          (tree_events listing n p)
          (p ∷ dir_paths (tree_events listing n p))
          (add O cb n (record { event_type = event_create; is_dir = d; path = p }) w)
  unfolding add apply_watch_event tree_events HasDepth
  add_exact zero p d w h fresh =
      add_with-Scanned (apply_watch_event O cb 0) (λ q. []) p d w
        (All_imp _ _ (listing p) (no_entries (apply_watch_event O cb 0) (λ q. []) p) h) fresh
  add_exact (suc n) p d w h fresh =
      add_with-Scanned (apply_watch_event O cb (suc n)) (tree_events listing n) p d w
        (All_imp _ _ (listing p)
          (λ info deeper.
            apply_with-AppliesTo (add O cb n) (tree_events listing n) p info
              (λ visible is_dir v fresh'.
                add_exact n (path_join p info.name) info.is_dir v (deeper visible is_dir) fresh'))
          h)
        fresh

  -- add finishes with a fuel of n or more on a directory with n levels of entries below it. It has
  -- then given the callback an event for each entry that a scan does not leave out for its name, a
  -- directory before what is in it, and has the directory itself and all such directories below it
  -- in its set of watched directories, and knows by each watch descriptor the last of these that
  -- has got it, or what it knew before; that is, if the system calls and the callback succeed, the
  -- directories do not change meanwhile, and no path comes twice or is watched before.
  pub add-Scanned :
      (n fuel : ℕ) (p : Text) (d : Bool) (w : FileWatcher O)
      → n ≤ fuel
      → HasDepth listing n p
      → Fresh (λ k. has_text k w.watched_dirs || text_eq p k) (paths (tree_events listing n p))
      → Scanned O S.wd w
          (tree_events listing n p)
          (p ∷ dir_paths (tree_events listing n p))
          (add O cb fuel (record { event_type = event_create; is_dir = d; path = p }) w)
  add-Scanned n fuel p d w le deep fresh =
      let (deep', same) = HasDepth-le listing n fuel p le deep in
      rw (← same) (add_exact fuel p d w deep' (rw (← same) at fresh))
