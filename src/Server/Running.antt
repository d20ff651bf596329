-- ===== src/Server/Running.antt =====
-- What every key of `server.watches` (watch_daemon/api_impl.go) points at: a running watch of its
-- own directory, whatever syncWatches and the goroutines of the watches do.
use golang_time_tracker.Base.{
  ℕ, zero, suc, ◌≡◌, ◌≢◌, refl, false, List, [], ◌∷◌, ◌++◌, none, some, arith, All, All-snoc,
  length, get_elem?, drop, Bool-cases, inl, inr,
}
use golang_time_tracker.Base.Text.{Text, text_eq, text_eq_iff}
use golang_time_tracker.Base.Table.{lookup, lookup-delete}
use golang_time_tracker.Server.Watches.{Watch, DbWatchInfo, Watches, cancel_at, create}
use golang_time_tracker.Server.Watches.Relation.{Align, stops, keeps, creates, removes, removed}
use golang_time_tracker.Server.Watches.Agree.{lookup-create}
use golang_time_tracker.Server.Recording.{set_pending}

-- The watch at `i` is one of the directory `dir`, and runs.
abbrev pub RunsAt : Text → List Watch → ℕ → Type 0
RunsAt dir heap i =
    (w : Watch) × (get_elem? heap i ≡ some w) × (w.dir ≡ dir) × (w.cancelled ≡ false)

abbrev pub AreRunning : Watches → Type 0
AreRunning s = (k : Text) (i : ℕ) → lookup k s.watches ≡ some i → RunsAt k s.heap i

get_elem?-append :
    (heap : List Watch) (v w : Watch) (i : ℕ)
    → get_elem? heap i ≡ some w
    → get_elem? (heap ++ v ∷ []) i ≡ some w
get_elem?-append [] v w i h = cc
get_elem?-append (x ∷ heap) v w zero h = h
get_elem?-append (x ∷ heap) v w (suc i) h = get_elem?-append heap v w i h

get_elem?-length :
    (heap : List Watch) (v : Watch) → get_elem? (heap ++ v ∷ []) (length heap) ≡ some v
get_elem?-length [] v = refl
get_elem?-length (x ∷ heap) v = get_elem?-length heap v

get_elem?-cancel_at :
    (heap : List Watch) (i j : ℕ) → j ≢ i → get_elem? (cancel_at j heap) i ≡ get_elem? heap i
unfolding cancel_at
get_elem?-cancel_at [] i j n = refl
get_elem?-cancel_at (x ∷ heap) zero zero n = absurd (n refl)
get_elem?-cancel_at (x ∷ heap) zero (suc j) n = refl
get_elem?-cancel_at (x ∷ heap) (suc i) zero n = refl
get_elem?-cancel_at (x ∷ heap) (suc i) (suc j) n =
    get_elem?-cancel_at heap i j (λ e. n (ground arith))

AreRunning-create : (d : DbWatchInfo) (s : Watches) → AreRunning s → AreRunning (create d s)
unfolding create
AreRunning-create d s h k i e = elim (Bool-cases (text_eq d.dir k)) [
  | inl p ↦
      let q : some (length s.heap) ≡ some i = rw (lookup-create k d s, p) at e in
      let at_end : length s.heap ≡ i = cc in
      (
        record { dir = d.dir; label = d.label; has_pending = 0; cancelled = false },
        rw (← at_end) (get_elem?-length s.heap _),
        (text_eq_iff d.dir k).0 p,
        refl,
      )
  | inr p ↦
      let q : lookup k s.watches ≡ some i = rw (lookup-create k d s, p) at e in
      let (w, seen, own, runs) = h k i q in (w, get_elem?-append s.heap _ w i seen, own, runs)
]

-- The cancelled watch is no other key's, which would be a watch of another directory.
AreRunning-removed :
    (dir : Text) (j : ℕ) (s : Watches)
    → lookup dir s.watches ≡ some j
    → AreRunning s
    → AreRunning (removed dir j s)
AreRunning-removed dir j s found h k i e = elim (Bool-cases (text_eq dir k)) [
  | inl p ↦ (let q : none ≡ some i = rw (lookup-delete dir k s.watches, p) at e in cc)
  | inr p ↦
      let q : lookup k s.watches ≡ some i = rw (lookup-delete dir k s.watches, p) at e in
      let (w, seen, own, runs) = h k i q in
      let (v, seen', own', _) = h dir j found in
      let other : j ≢ i = λ same.
        let same_watch : some v ≡ some w = rw (← seen, ← seen', same) refl in
        let same_dir : v.dir ≡ w.dir = ground arith in ground (arith, text_eq_iff dir k) in
      (w, rw (get_elem?-cancel_at s.heap i j other) seen, own, runs)
]

pub Align-AreRunning :
    (es : List Text) (ds : List DbWatchInfo) (s t : Watches)
    → Align es ds s t
    → AreRunning s
    → AreRunning t
Align-AreRunning _ _ s t stops h = h
Align-AreRunning _ _ s t (keeps {es = es} {ds = ds} same rest) h = Align-AreRunning es ds s t rest h
Align-AreRunning _ _ s t (creates {es = es} {d = d} {ds = ds} before rest) h =
    Align-AreRunning es ds (create d s) t rest (AreRunning-create d s h)
Align-AreRunning _ _ s t (removes {e = e} {es = es} {ds = ds} {w = w} before found rest) h =
    Align-AreRunning (drop 1 es) ds (removed e w s) t rest (AreRunning-removed e w s found h)

module _ (P : Text → Text → Type 0) where
  -- The directory and label of every watch.
  abbrev pub AllNamed : List Watch → Type 0
  AllNamed = All (λ w. P w.dir w.label)

  AllNamed-cancel_at : (i : ℕ) (heap : List Watch) → AllNamed heap → AllNamed (cancel_at i heap)
  unfolding cancel_at
  AllNamed-cancel_at i [] h = tt
  AllNamed-cancel_at zero (w ∷ heap) h = h
  AllNamed-cancel_at (suc i) (w ∷ heap) h = (h.0, AllNamed-cancel_at i heap h.1)

  -- The watches are made from those of the database.
  pub Align-AllNamed :
      (es : List Text) (ds : List DbWatchInfo) (s t : Watches)
      → Align es ds s t
      → All (λ d. P d.dir d.label) ds
      → AllNamed s.heap
      → AllNamed t.heap
  Align-AllNamed _ _ s t stops d h = h
  Align-AllNamed _ _ s t (keeps {es = es} {ds = ds} same rest) d h =
      Align-AllNamed es ds s t rest d.1 h
  Align-AllNamed _ _ s t (creates {es = es} {d = c} {ds = ds} before rest) d h =
      Align-AllNamed es ds (create c s) t rest d.1 (unfold create in All-snoc _ s.heap _ h d.0)
  Align-AllNamed _ _ s t (removes {e = e} {es = es} {ds = ds} {w = w} before found rest) d h =
      Align-AllNamed (drop 1 es) ds (removed e w s) t rest d (AllNamed-cancel_at w s.heap h)

  pub AllNamed-set_pending :
      (i n : ℕ) (heap : List Watch) → AllNamed heap → AllNamed (set_pending i n heap)
  unfolding set_pending
  AllNamed-set_pending i n [] h = tt
  AllNamed-set_pending zero n (w ∷ heap) h = h
  AllNamed-set_pending (suc i) n (w ∷ heap) h = (h.0, AllNamed-set_pending i n heap h.1)

  pub AllNamed-get :
      (heap : List Watch) (i : ℕ) (w : Watch)
      → get_elem? heap i ≡ some w
      → AllNamed heap
      → P w.dir w.label
  AllNamed-get [] i w e h = cc
  AllNamed-get (v ∷ heap) zero w e h = let same : v ≡ w = cc in rw (← same) h.0
  AllNamed-get (v ∷ heap) (suc i) w e h = AllNamed-get heap i w e h.1

RunsAt-set_pending :
    (dir : Text) (heap : List Watch) (i j n : ℕ)
    → RunsAt dir heap i
    → RunsAt dir (set_pending j n heap) i
unfolding set_pending
RunsAt-set_pending dir [] i j n (w, seen, _, _) = cc
RunsAt-set_pending dir (v ∷ heap) zero zero n (w, seen, own, runs) =
    let same : v ≡ w = cc in rw same (record w { has_pending = n }, refl, own, runs)
RunsAt-set_pending dir (v ∷ heap) zero (suc j) n h = h
RunsAt-set_pending dir (v ∷ heap) (suc i) zero n h = h
RunsAt-set_pending dir (v ∷ heap) (suc i) (suc j) n h = RunsAt-set_pending dir heap i j n h

pub AreRunning-set_pending :
    (i n : ℕ) (s : Watches) → AreRunning s → AreRunning (record s { heap = set_pending i n s.heap })
AreRunning-set_pending i n s h k j e = RunsAt-set_pending k s.heap j i n (h k j e)
