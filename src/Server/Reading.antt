-- ===== src/Server/Reading.antt =====
-- What GetWatches (watch_daemon/api_impl.go) returns.
use golang_time_tracker.Base.{
  ℕ, ◌≡◌, refl, ap, false, List, [], ◌∷◌, some, arith, All, map, get_elem?,
}
use golang_time_tracker.Base.Int.{pos}
use golang_time_tracker.Base.Halt.{done}
use golang_time_tracker.Base.Text.{Text, text_eq_iff}
use golang_time_tracker.Base.Sorting.{Distinct}
use golang_time_tracker.Base.Table.{has_text-keys, lookup, keys}
use golang_time_tracker.Client.{WatchInfo}
use golang_time_tracker.Database.{Database}
use golang_time_tracker.Database.Rules.{Rules}
use golang_time_tracker.Server.State.{Server, returned, ok}
use golang_time_tracker.Server.Watches.{Watch}
use golang_time_tracker.Server.Handlers.{watch_infos, get_watches}
use golang_time_tracker.Server.Running.{RunsAt}
use golang_time_tracker.Server.Steps.{IsServer}

-- A running watch of the directory with the label.
abbrev pub IsShown : List Watch → WatchInfo → Type 0
IsShown heap info =
    (i : ℕ) × (w : Watch) × (get_elem? heap i ≡ some w)
    × (w.dir ≡ info.dir)
    × (w.label ≡ info.label)
    × (w.cancelled ≡ false)

abbrev info_dirs : List WatchInfo → List Text
info_dirs = map (λ info. info.dir)

watch_infos_lem :
    (m : List (Text × ℕ)) (heap : List Watch)
    → All (λ e. RunsAt e.0 heap e.1) m
    → (infos : List WatchInfo) × (watch_infos m heap ≡ done infos)
      × (info_dirs infos ≡ keys m)
      × All (IsShown heap) infos
unfolding watch_infos
watch_infos_lem [] heap h = ([], refl, refl, tt)
watch_infos_lem ((dir, i) ∷ m) heap h =
    let (w, seen, own, runs) = h.0 in
    let (infos, e, ds, shown) = watch_infos_lem m heap h.1 in
    (
      record { last_write = pos 0; dir = dir; label = w.label } ∷ infos,
      rw (seen, e, watch_infos) refl,
      ap (◌∷◌ dir) ds,
      ((i, w, seen, own, refl, runs), shown),
    )

RunsAt-of_lookup :
    (m : List (Text × ℕ)) (heap : List Watch)
    → Distinct (keys m)
    → ((k : Text) (i : ℕ) → lookup k m ≡ some i → RunsAt k heap i)
    → All (λ e. RunsAt e.0 heap e.1) m
unfolding lookup
RunsAt-of_lookup [] heap d h = tt
RunsAt-of_lookup ((dir, j) ∷ m) heap d h = (
  h dir j (rw ((text_eq_iff dir dir).1 refl)),
  RunsAt-of_lookup m heap d.1
      λ k i e. h k i (ground (arith, text_eq_iff dir k, (has_text-keys k m).1)),
)

module _ (D : Database) (R : Rules D) where
  -- From a server as it should be GetWatches returns an entry for every key of its map, each
  -- with the label of a running watch on the directory.
  pub get_watches_lem :
      (s : Server D)
      → IsServer D R s
      → (infos : List WatchInfo) × (get_watches D s ≡ returned (ok (record { watches = infos })))
        × (info_dirs infos ≡ keys s.watches.watches)
        × All (IsShown s.watches.heap) infos
  unfolding get_watches
  get_watches_lem s v =
      let (infos, e, ds, shown) =
        watch_infos_lem s.watches.watches s.watches.heap
          (RunsAt-of_lookup s.watches.watches s.watches.heap v.map_keys v.running) in
      (infos, rw (e, get_watches) refl, ds, shown)
