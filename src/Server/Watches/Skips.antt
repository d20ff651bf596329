-- ===== src/Server/Watches/Skips.antt =====
-- Where syncWatches (watch_daemon/api_impl.go) goes wrong: a removal shortens the slice of existing
-- watches and moves the index too, so that the watch behind the removed one is passed over.
use mathlib.Core.List.{append-nil, append_assoc}
use golang_time_tracker.Base.{
  ℕ, zero, suc, ◌≡◌, ◌≢◌, refl, sym, ap, ◌∙◌, true, false, List, [], ◌∷◌, ◌++◌, none, some, arith,
  length, get_elem?, drop,
}
use golang_time_tracker.Base.Text.{Text, text_lt, text_lt_irrefl, text_lt_trans, text_eq_iff}
use golang_time_tracker.Base.Sorting.{Sorted, Distinct, has_text, sort_texts, sort_texts-Sorted}
use golang_time_tracker.Base.Table.{lookup, keys, lookup-delete}
use golang_time_tracker.Base.Halt.{done}
use golang_time_tracker.Server.Watches.{
  Watch, DbWatchInfo, Watches, cancel_at, create, align_watches,
}
use golang_time_tracker.Server.Watches.Relation.{
  Align, stops, keeps, creates, removes, removed, Precedes, PrecedesDb,
}
use golang_time_tracker.Server.Watches.Align.{dirs, align_watches-Align}
use golang_time_tracker.Server.Watches.Agree.{
  Align-frame, PrecedesDb-absent, absent_before, lookup-create,
}

-- An existing watch that comes before the rest of the database is the next to be removed.
removal :
    (es : List Text) (ds : List DbWatchInfo) (s t : Watches) (a : Text) (fs : List Text)
    → Align es ds s t
    → es ≡ a ∷ fs
    → PrecedesDb a ds
    → (w : ℕ) × (lookup a s.watches ≡ some w) × Align (drop 1 fs) ds (removed a w s) t
removal _ _ s t a fs stops e h = cc
removal _ _ s t a fs (keeps {e = x} {d = d} same rest) e h =
    absurd (ground (arith, text_lt_irrefl a))
removal _ _ s t a fs (creates {es = es} {d = d} before rest) e h = absurd (
    ground (
      arith,
      text_lt_irrefl a,
      text_lt_trans a d.dir a h (Precedes-head d.dir a fs (rw e at before)),
    ))
  where
    Precedes-head : (k a : Text) (fs : List Text) → Precedes k (a ∷ fs) → text_lt k a ≡ true
    Precedes-head k a fs p = p
removal _ _ s t a fs (removes {e = x} {es = es} {ds = ds} {w = w} before found rest) e h =
    let same : x ≡ a = cc in
    let same_rest : es ≡ fs = cc in rw (← same, ← same_rest) (w, found, rest)

-- Two existing watches `a` and `b`, the first two and both before all directories of the database:
-- syncWatches removes the first, and leaves the second as it is although the database does not hold
-- it.
align_watches_skips :
    (db : List DbWatchInfo) (s : Watches) (a b : Text) (es : List Text)
    → Distinct (keys s.watches)
    → sort_texts (keys s.watches) ≡ a ∷ b ∷ es
    → Sorted (dirs db)
    → PrecedesDb b db
    → (t : Watches) × (align_watches db s ≡ done t)
      × (lookup a t.watches ≡ none)
      × (lookup b t.watches ≡ lookup b s.watches)
      × (has_text b (dirs db) ≡ false)
align_watches_skips db s a b es h sorts sd before =
    let (t, eq, al) = align_watches-Align db s h in
    let so : Sorted (a ∷ b ∷ es) = rw sorts at (sort_texts-Sorted (keys s.watches) h) in
    let (w, found, rest) =
      removal (sort_texts (keys s.watches)) db s t a (b ∷ es) al sorts
        (PrecedesDb-lt a b db so.0.0 before) in
    let b_new : has_text b (dirs db) ≡ false = PrecedesDb-absent b db before sd in
    (
      t,
      eq,
      Align-frame a es db (removed a w s) t rest (absent_before a es so.0.1)
            (PrecedesDb-absent a db (PrecedesDb-lt a b db so.0.0 before) sd)
          ∙ (ground (arith, lookup-delete a a s.watches, text_eq_iff a a)),
      Align-frame b es db (removed a w s) t rest (absent_before b es so.1.0) b_new
          ∙ (ground (arith, lookup-delete a b s.watches, text_eq_iff a b, text_lt_irrefl a)),
      b_new,
    )
  where
    PrecedesDb-lt :
        (a b : Text) (ds : List DbWatchInfo)
        → text_lt a b ≡ true
        → PrecedesDb b ds
        → PrecedesDb a ds
    PrecedesDb-lt a b [] h p = tt
    PrecedesDb-lt a b (d ∷ ds) h p = text_lt_trans a b d.dir h p

heap-create :
    (d : DbWatchInfo) (s : Watches) (made : List Watch)
    → (create d s).heap ++ made
      ≡ s.heap ++ record { dir = d.dir; label = d.label; has_pending = 0; cancelled = false } ∷ made
unfolding create
heap-create d s made = append_assoc s.heap _ made

-- The watches that are made do not disturb the older ones.
Align-heap :
    (ds : List DbWatchInfo) (es : List Text) (s t : Watches)
    → Align es ds s t
    → es ≡ []
    → (made : List Watch) × (t.heap ≡ s.heap ++ made)
Align-heap _ _ s t stops e = ([], sym (append-nil s.heap))
Align-heap _ _ s t (keeps same rest) e = cc
Align-heap _ _ s t (creates {es = es} {d = d} {ds = ds} before rest) e =
    let (made, eq) = Align-heap ds es (create d s) t rest e in
    (
      record { dir = d.dir; label = d.label; has_pending = 0; cancelled = false } ∷ made,
      eq ∙ heap-create d s made,
    )
Align-heap _ _ s t (removes before found rest) e = cc

get_elem?-append :
    (xs ys : List Watch) (i : ℕ) {x : Watch}
    → get_elem? xs i ≡ some x
    → get_elem? (xs ++ ys) i ≡ some x
get_elem?-append [] ys i h = cc
get_elem?-append (x ∷ xs) ys zero h = h
get_elem?-append (x ∷ xs) ys (suc i) h = get_elem?-append xs ys i h

get_elem?-cancel_at :
    (xs : List Watch) (i j : ℕ) → i ≢ j → get_elem? (cancel_at i xs) j ≡ get_elem? xs j
unfolding cancel_at
get_elem?-cancel_at [] i j h = refl
get_elem?-cancel_at (x ∷ xs) zero zero h = absurd (h refl)
get_elem?-cancel_at (x ∷ xs) zero (suc j) h = refl
get_elem?-cancel_at (x ∷ xs) (suc i) zero h = refl
get_elem?-cancel_at (x ∷ xs) (suc i) (suc j) h = get_elem?-cancel_at xs i j (λ e. h (ap suc e))

length-cancel_at : (i : ℕ) (xs : List Watch) → length (cancel_at i xs) ≡ length xs
unfolding cancel_at
length-cancel_at i [] = refl
length-cancel_at zero (x ∷ xs) = refl
length-cancel_at (suc i) (x ∷ xs) = ap suc (length-cancel_at i xs)

creation :
    (es : List Text) (ds : List DbWatchInfo) (s t : Watches) (d : DbWatchInfo)
    (fs : List DbWatchInfo)
    → Align es ds s t
    → es ≡ []
    → ds ≡ d ∷ fs
    → Align [] fs (create d s) t
creation _ _ s t d fs stops e f = cc
creation _ _ s t d fs (keeps same rest) e f = cc
creation _ _ s t d fs (creates {es = es} {d = x} {ds = ds} before rest) e f =
    let same : x ≡ d = cc in let same_rest : ds ≡ fs = cc in rw (← same, ← same_rest, ← e) rest
creation _ _ s t d fs (removes before found rest) e f = cc

-- Where the map holds just two watches, at different places, and the sorted directories of the
-- database begin with that of the second, the alignment ends without a panic, gives that directory
-- a new watch, and leaves the watch that it had as it was, without cancelling it.
pub align_watches_leaks :
    (d : DbWatchInfo) (ds : List DbWatchInfo) (s : Watches) (a : Text) (i j : ℕ) (w : Watch)
    → Distinct (keys s.watches)
    → sort_texts (keys s.watches) ≡ a ∷ d.dir ∷ []
    → Sorted (dirs (d ∷ ds))
    → lookup a s.watches ≡ some i
    → lookup d.dir s.watches ≡ some j
    → i ≢ j
    → get_elem? s.heap j ≡ some w
    → (t : Watches) × (align_watches (d ∷ ds) s ≡ done t)
      × (lookup d.dir t.watches ≡ some (length s.heap))
      × (get_elem? t.heap j ≡ some w)
align_watches_leaks d ds s a i j w h sorts sd at_a at_b ne held =
    let (t, eq, al) = align_watches-Align (d ∷ ds) s h in
    let so : Sorted (a ∷ d.dir ∷ []) = rw sorts at (sort_texts-Sorted (keys s.watches) h) in
    let (k, found, rest) =
      removal (sort_texts (keys s.watches)) (d ∷ ds) s t a (d.dir ∷ []) al sorts so.0.0 in
    let same : k ≡ i = ground arith in
    let (made, heap) = Align-heap (d ∷ ds) [] (removed a k s) t rest refl in
    (
      t,
      eq,
      Align-frame d.dir [] ds (create d (removed a k s)) t
            (creation [] (d ∷ ds) (removed a k s) t d ds rest refl refl) refl
            (absent_before d.dir (dirs ds) sd.0)
          ∙ lookup-create d.dir d (removed a k s)
          ∙ (ground (arith, text_eq_iff d.dir d.dir, length-cancel_at k s.heap)),
      rw heap (
          get_elem?-append (cancel_at k s.heap) made j
            (get_elem?-cancel_at s.heap k j (λ e. ne (sym same ∙ e)) ∙ held)),
    )
