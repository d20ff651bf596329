-- ===== src/Server/Watches/Converge.antt =====
-- How often syncWatches (watch_daemon/api_impl.go) has to run: one run may leave watches whose
-- directories are gone from the database, and enough runs leave none.
use golang_time_tracker.Base.{
  ℕ, zero, suc, ◌<◌, ◌≤◌, ◌≡◌, ◌≢◌, ◌↔◌, refl, ◌∙◌, true, List, none, arith, length, drop, All,
  Bool-cases, inl, inr,
}
use golang_time_tracker.Base.Text.{Text}
use golang_time_tracker.Base.Sorting.{
  Sorted, Distinct, has_text, All-has_text, sort_texts, sort_texts-Sorted, has_text-sort_texts,
  All-sort_texts,
}
use golang_time_tracker.Base.Table.{lookup, keys, has_text-keys, insert-Distinct, delete-Distinct}
use golang_time_tracker.Base.Halt.{Halt, done, panics, stuck}
use golang_time_tracker.Server.Watches.{DbWatchInfo, Watches, create, align_watches}
use golang_time_tracker.Server.Watches.Relation.{
  Align, stops, keeps, creates, removes, removed, AreKeys,
}
use golang_time_tracker.Server.Watches.Align.{dirs, align_watches-Align, AreKeys-keys}
use golang_time_tracker.Server.Watches.Agree.{Align-covers}
use golang_time_tracker.Server.Watches.Stale.{
  stale_count, any_stale, Align-left, any_stale-sort, stale_count-zero, none_stale, Agrees-all,
  AreDirs_all,
}

Align-Distinct :
    (es : List Text) (ds : List DbWatchInfo) (s t : Watches)
    → Align es ds s t
    → Distinct (keys s.watches)
    → Distinct (keys t.watches)
Align-Distinct _ _ s t stops h = h
Align-Distinct _ _ s t (keeps {es = es} {ds = ds} same rest) h = Align-Distinct es ds s t rest h
Align-Distinct _ _ s t (creates {es = es} {d = d} {ds = ds} before rest) h =
    Align-Distinct es ds (create d s) t rest
      (unfold create in insert-Distinct d.dir (length s.heap) s.watches h)
Align-Distinct _ _ s t (removes {e = e} {es = es} {ds = ds} {w = w} before found rest) h =
    Align-Distinct (drop 1 es) ds (removed e w s) t rest (delete-Distinct e s.watches h)

-- The directories with a watch are those of the database.
abbrev pub InSync : List DbWatchInfo → Watches → Type 0
InSync db s = (k : Text) → (lookup k s.watches ≢ none) ↔ (has_text k (dirs db) ≡ true)

-- What one run of the second half of syncWatches does to a map that holds no key twice.
pub record Synced (db : List DbWatchInfo) (s t : Watches) : Type 0 where
  pub aligned : Align (sort_texts (keys s.watches)) db s t
  pub distinct : Distinct (keys t.watches)
  pub covers : All (λ d. lookup d t.watches ≢ none) (dirs db)
  pub no_more : stale_count db (keys t.watches) ≤ stale_count db (keys s.watches)
  pub fewer :
      stale_count db (keys s.watches) ≢ 0
      → stale_count db (keys t.watches) < stale_count db (keys s.watches)

-- From a map that holds no key twice and a list of database watches in strictly ascending order,
-- the run ends without a panic, every directory of the database is watched afterwards, and
-- of the watches on other directories one at least is gone, if there was any, and none is new.
pub align_watches-Synced :
    (db : List DbWatchInfo) (s : Watches)
    → Sorted (dirs db)
    → Distinct (keys s.watches)
    → (t : Watches) × (align_watches db s ≡ done t) × Synced db s t
align_watches-Synced db s sd h =
    let es : List Text = sort_texts (keys s.watches) in
    let (t, eq, al) = align_watches-Align db s h in
    let so : Sorted es = sort_texts-Sorted (keys s.watches) h in
    let ks : AreKeys es s =
      All-sort_texts (λ e. lookup e s.watches ≢ none) (keys s.watches)
        (AreKeys-keys s.watches (keys s.watches) (λ k. (has_text-keys k s.watches).0)) in
    let (le, lt) =
      Align-left db es db s t al so sd (Agrees-all db es) (AreDirs_all db (dirs db) (λ k p. p)) in
    (
      t,
      eq,
      record {
        aligned = al;
        distinct = Align-Distinct es db s t al h;
        covers = Align-covers es db s t al so ks;
        no_more = le;
        fewer = λ some_stale. elim (Bool-cases (any_stale db es)) [
          | inl e ↦ lt e
          | inr e ↦ absurd (
              some_stale (
                stale_count-zero db (keys s.watches)
                  λ k p. any_stale-sort db es e k (has_text-sort_texts k (keys s.watches) ∙ p)))
        ];
      },
    )

-- The runs of syncWatchesLoop while the watches table stays as it is.
unfoldable pub sync_times : ℕ → List DbWatchInfo → Watches → Halt Watches
sync_times zero db s = done s
sync_times (suc n) db s = elim (align_watches db s) [
  | done t ↦ sync_times n db t
  | panics ↦ panics
  | stuck ↦ stuck
]

-- From a map that holds no key twice and a list of database watches in strictly ascending order, as
-- many runs as there are watches to remove, and one more, make the watched directories those of the
-- database.
pub sync_times-InSync :
    (n : ℕ) (db : List DbWatchInfo) (s : Watches)
    → Sorted (dirs db)
    → Distinct (keys s.watches)
    → stale_count db (keys s.watches) ≤ n
    → (t : Watches) × (sync_times (suc n) db s ≡ done t) × InSync db t
unfolding sync_times
sync_times-InSync zero db s sd h le =
    let (t, eq, v) = align_watches-Synced db s sd h in
    (
      t,
      rw (eq, sync_times) refl,
      λ k. (
        (λ p.
            none_stale db (keys t.watches) (ground (arith, v.no_more)) k
              ((has_text-keys k t.watches).1 p)),
        (λ p. All-has_text (λ d. lookup d t.watches ≢ none) k (dirs db) v.covers p),
      ),
    )
sync_times-InSync (suc n) db s sd h le =
    let (t, eq, v) = align_watches-Synced db s sd h in
    let (u, eq', w) = sync_times-InSync n db t sd v.distinct (ground (arith, v.no_more, v.fewer)) in
    (u, rw (eq, sync_times) eq', w)
