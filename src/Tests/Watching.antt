-- ===== src/Tests/Watching.antt =====
-- Tests of how the daemon aligns its watches with the database.
use golang_time_tracker.Base.{
  ◌≤◌, ◌≡◌, ◌↔◌, refl, true, List, [], ◌∷◌, none, some, arith, All, get_elem?,
}
use golang_time_tracker.Base.Halt.{done}
use golang_time_tracker.Base.Text.{codes, text_eq, text_lt}
use golang_time_tracker.Base.Sorting.{Distinct, sort_texts}
use golang_time_tracker.Base.Table.{lookup, keys}
use golang_time_tracker.Server.Watches.{Watches, DbWatchInfo, align_watches}
use golang_time_tracker.Server.Watches.Align.{dirs}
use golang_time_tracker.Server.Watches.Stale.{stale_count}
use golang_time_tracker.Server.Watches.Converge.{
  Synced, InSync, sync_times, sync_times-InSync, align_watches-Synced,
}
use golang_time_tracker.Server.Watches.Skips.{align_watches_leaks}
use golang_time_tracker.Server.Handlers.{conflict}
use golang_time_tracker.Server.Invariant.{Apart, conflict_iff}
use golang_time_tracker.Tests.Data.{watched, running, two_watches}

abbrev only_c : List DbWatchInfo
only_c = watched (codes "/c") ∷ []

abbrev only_b : List DbWatchInfo
only_b = watched (codes "/b") ∷ []

two_watches-Distinct : Distinct (keys two_watches.watches)
unfolding text_eq
two_watches-Distinct = (refl, (refl, tt))

both_stale : stale_count only_c (keys two_watches.watches) ≤ 2
unfolding text_eq
both_stale = omega arith

sync_times-InSync_example :
    (t : Watches) × (sync_times 3 only_c two_watches ≡ done t) × InSync only_c t
sync_times-InSync_example =
    sync_times-InSync 2 only_c two_watches (tt, tt) two_watches-Distinct both_stale

align_watches-Synced_example :
    (t : Watches) × (align_watches only_c two_watches ≡ done t) × Synced only_c two_watches t
align_watches-Synced_example = align_watches-Synced only_c two_watches (tt, tt) two_watches-Distinct

two_watches_sorted : sort_texts (keys two_watches.watches) ≡ codes "/a" ∷ codes "/b" ∷ []
unfolding sort_texts text_lt
two_watches_sorted = refl

b_first : text_lt (codes "/b") (codes "/c") ≡ true
unfolding text_lt
b_first = refl

first_place : lookup (codes "/a") two_watches.watches ≡ some 0
unfolding lookup text_eq
first_place = refl

second_place : lookup (codes "/b") two_watches.watches ≡ some 1
unfolding lookup text_eq
second_place = refl

align_watches_leaks_example :
    (t : Watches) × (align_watches only_b two_watches ≡ done t)
    × (lookup (codes "/b") t.watches ≡ some 2)
    × (get_elem? t.heap 1 ≡ some (running (codes "/b")))
align_watches_leaks_example =
    align_watches_leaks (watched (codes "/b")) [] two_watches (codes "/a") 0 1
      (running (codes "/b")) two_watches-Distinct two_watches_sorted (tt, tt) first_place
      second_place (λ e. omega arith) refl

conflict_iff_example :
    (conflict (codes "/a/b") (watched (codes "/a") ∷ only_c) ≡ none)
    ↔ All (Apart (codes "/a/b")) (dirs (watched (codes "/a") ∷ only_c))
conflict_iff_example = conflict_iff (codes "/a/b") (watched (codes "/a") ∷ only_c)
