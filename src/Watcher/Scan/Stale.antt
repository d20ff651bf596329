-- ===== src/Watcher/Scan/Stale.antt =====
-- How applyWatchEvent of pkg/watcher/watcher.go takes events for directories that it watches
-- already, or still.
use golang_time_tracker.Base.{
  ◌≤◌, ℕ, suc, ◌≡◌, refl, sym, ap, ◌∙◌, Bool, true, false, not, ◌&&◌, ◌||◌, List, [], ◌∷◌, ◌++◌,
  arith,
}
use golang_time_tracker.Base.Text.{Text, text_eq, text_eq_iff}
use golang_time_tracker.Base.Sorting.{has_text}
use golang_time_tracker.Watcher.{
  WatchEvent, event_create, event_delete, ChildInfo, Os, finished, ◌>>=◌, set_delete, FileWatcher,
}
use golang_time_tracker.Watcher.Scan.{call_back, apply_with, apply_watch_event, add}
use golang_time_tracker.Watcher.Scan.Static.{Static, tree_events, HasDepth, dir_paths, paths, Fresh}
use golang_time_tracker.Watcher.Scan.Tree.{add-Scanned}

has_text-set_delete :
    (k p : Text) (ws : List Text)
    → has_text k (set_delete p ws) ≡ has_text k ws && not (text_eq p k)
unfolding set_delete
has_text-set_delete k p [] = refl
has_text-set_delete k p (w ∷ ws) =
    ground (arith, text_eq_iff w p, text_eq_iff w k, text_eq_iff p k, has_text-set_delete k p ws)

module _ (O : Os) (cb : List WatchEvent → WatchEvent → Bool) where
  watched_create :
      (fuel : ℕ) (q : Text) (d : Bool) (w : FileWatcher O)
      → has_text q w.watched_dirs ≡ true
      → apply_watch_event O cb
          (suc fuel)
          (record { event_type = event_create; is_dir = d; path = q })
          w
        ≡ finished w
  unfolding apply_watch_event apply_with
  watched_create fuel q d w h = rw (apply_with, h) refl

  -- Once a scan has found a directory, the event of its creation that the kernel may have queued
  -- meanwhile changes nothing and is not given to the callback a second time; if the fuel is as
  -- much as the tree has levels, the calls succeed, the tree does not change while it is scanned,
  -- and no path comes twice or is watched before.
  pub add-apply_watch_event :
      (listing : Text → List ChildInfo) (S : Static O cb listing) (n fuel : ℕ) (p q : Text)
      (d d' : Bool) (w : FileWatcher O)
      → n ≤ fuel
      → HasDepth listing n p
      → Fresh (λ k. has_text k w.watched_dirs || text_eq p k) (paths (tree_events listing n p))
      → has_text q (dir_paths (tree_events listing n p)) ≡ true
      → (add O cb fuel (record { event_type = event_create; is_dir = d; path = p }) w
          >>= apply_watch_event O cb
              (suc fuel)
              (record { event_type = event_create; is_dir = d'; path = q }))
        ≡ add O cb fuel (record { event_type = event_create; is_dir = d; path = p }) w
  add-apply_watch_event listing S n fuel p q d d' w le deep fresh h =
      let (v, (end, (said, (seen, _)))) = add-Scanned O cb listing S n fuel p d w le deep fresh in
      ap
        (λ r.
          r
          >>= apply_watch_event O cb (suc fuel)
              (record { event_type = event_create; is_dir = d'; path = q }))
        end
      ∙ watched_create fuel q d' v (ground (arith, seen q, h))
      ∙ sym end

  -- The set of the watched directories keeps what is below a directory that is deleted or moved
  -- away: if a directory is created again at a path below it, it is neither watched nor given to
  -- the callback.
  pub apply_watch_event-stale :
      (fuel : ℕ) (p q : Text) (d d' : Bool) (w : FileWatcher O)
      → has_text q w.watched_dirs ≡ true
      → text_eq p q ≡ false
      → cb w.called (record { event_type = event_delete; is_dir = d; path = p }) ≡ true
      → (apply_watch_event O cb
            (suc fuel)
            (record { event_type = event_delete; is_dir = d; path = p })
            w
          >>= apply_watch_event O cb
              (suc fuel)
              (record { event_type = event_create; is_dir = d'; path = q }))
        ≡ finished (record w {
          watched_dirs = set_delete p w.watched_dirs;
          called = w.called ++ record { event_type = event_delete; is_dir = d; path = p } ∷ [];
        })
  unfolding apply_watch_event apply_with call_back
  apply_watch_event-stale fuel p q d d' w watched other ok =
      rw (call_back, ok)
        (watched_create fuel q d' _
          (has_text-set_delete q p w.watched_dirs ∙ ground (arith, watched, other)))
