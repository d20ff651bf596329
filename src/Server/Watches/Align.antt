-- ===== src/Server/Watches/Align.antt =====
-- The loop of syncWatches (watch_daemon/api_impl.go), as a relation on what is left of its lists.
use golang_time_tracker.Base.{
  ℕ, zero, suc, ◌+◌, ◌<◌, ◌≡◌, ◌≢◌, refl, true, List, [], ◌∷◌, map, none, some, arith, length,
  get_elem?, drop, All, Bool-cases, Option-cases, inl, inr,
}
use golang_time_tracker.Base.Text.{Text, text_lt, text_lt_total, text_eq_iff}
use golang_time_tracker.Base.Sorting.{
  Sorted, Distinct, has_text, sort_texts, sort_texts-Sorted, All-sort_texts,
}
use golang_time_tracker.Base.Table.{lookup, keys, has_text-keys}
use golang_time_tracker.Base.Halt.{Halt, done}
use golang_time_tracker.Server.Watches.{
  DbWatchInfo, Watches, create, remove, remove_at, op_keep, op_create, op_remove, next_op,
  sync_loop, align_watches,
}
use golang_time_tracker.Server.Watches.Relation.{
  removed, Precedes, PrecedesDb, Align, stops, keeps, creates, removes, AreKeys, get_elem?-drop_nil,
  get_elem?-drop_cons, AreKeys-create, AreKeys-removed, All-drop, Sorted-drop, length-drop_le,
}

-- The outcome of the loop: it ends, and as the relation says.
abbrev Aligns : List Text → List DbWatchInfo → Watches → Halt Watches → Type 0
Aligns es ds s r = (t : Watches) × (r ≡ done t) × Align es ds s t

module _ (db : List DbWatchInfo) where
  remove_step :
      (fuel : ℕ) (existing : List Text) (i j : ℕ) (s : Watches) (e : Text) (es : List Text)
      (ds : List DbWatchInfo)
      → next_op (get_elem? existing i) (get_elem? db j) ≡ op_remove e
      → PrecedesDb e ds
      → lookup e s.watches ≢ none
      → ((w : ℕ)
          → lookup e s.watches ≡ some w
          → Aligns
              (drop 1 es)
              ds
              (removed e w s)
              (sync_loop fuel db (remove_at i existing) (suc i) j (removed e w s)))
      → Aligns (e ∷ es) ds s (sync_loop (suc fuel) db existing i j s)
  remove_step fuel existing i j s e es ds op before key rest =
      elim (Option-cases (lookup e s.watches)) [
        | inl missing ↦ absurd (key missing)
        | inr (w, found) ↦
            let (t, eq, al) = rest w found in
            (
              t,
              (unfold sync_loop remove in rw (op, sync_loop, found, remove) eq),
              removes before found al,
            )
      ]

  create_step :
      (fuel : ℕ) (existing : List Text) (i j : ℕ) (s : Watches) (es : List Text) (d : DbWatchInfo)
      (ds : List DbWatchInfo)
      → next_op (get_elem? existing i) (get_elem? db j) ≡ op_create d
      → Precedes d.dir es
      → Aligns es ds (create d s) (sync_loop fuel db existing i (suc j) (create d s))
      → Aligns es (d ∷ ds) s (sync_loop (suc fuel) db existing i j s)
  create_step fuel existing i j s es d ds op before (t, eq, al) =
      (t, (unfold sync_loop in rw (op, sync_loop) eq), creates before al)

  keep_step :
      (fuel : ℕ) (existing : List Text) (i j : ℕ) (s : Watches) (e : Text) (es : List Text)
      (d : DbWatchInfo) (ds : List DbWatchInfo)
      → next_op (get_elem? existing i) (get_elem? db j) ≡ op_keep
      → e ≡ d.dir
      → Aligns es ds s (sync_loop fuel db existing (suc i) (suc j) s)
      → Aligns (e ∷ es) (d ∷ ds) s (sync_loop (suc fuel) db existing i j s)
  keep_step fuel existing i j s e es d ds op same (t, eq, al) =
      (t, (unfold sync_loop in rw (op, sync_loop) eq), keeps same al)

  sync_loop-Align :
      (fuel : ℕ) (existing : List Text) (i j : ℕ) (s : Watches) (es : List Text)
      (ds : List DbWatchInfo)
      → drop i existing ≡ es
      → drop j db ≡ ds
      → length es + length ds < fuel
      → Sorted es
      → AreKeys es s
      → Aligns es ds s (sync_loop fuel db existing i j s)
  sync_loop-Align zero existing i j s es ds he hd hf so ks = absurd (omega arith)
  sync_loop-Align (suc fuel) existing i j s [] [] he hd hf so ks = (
    s,
    (unfold sync_loop next_op in
        rw (get_elem?-drop_nil existing i he, get_elem?-drop_nil db j hd, sync_loop, next_op)),
    stops,
  )
  sync_loop-Align (suc fuel) existing i j s [] (d ∷ ds) he hd hf so ks =
      let (at_j, next_j, _) = get_elem?-drop_cons db j d ds hd in
      create_step fuel existing i j s [] d ds
        (unfold next_op in rw (get_elem?-drop_nil existing i he, at_j)) tt
        (sync_loop-Align fuel existing i (suc j) (create d s) [] ds he next_j (omega arith) tt tt)
  sync_loop-Align (suc fuel) existing i j s (e ∷ es) [] he hd hf so ks =
      let (at_i, next_i, past_i) = get_elem?-drop_cons existing i e es he in
      remove_step fuel existing i j s e es []
        (unfold next_op in rw (at_i, get_elem?-drop_nil db j hd)) tt ks.0
        λ w found.
          sync_loop-Align fuel (remove_at i existing) (suc i) j (removed e w s) (drop 1 es) []
            past_i hd (omega (arith, length-drop_le es)) (Sorted-drop es so.1)
            (All-drop _ es (AreKeys-removed es e w s so.0 ks.1))
  sync_loop-Align (suc fuel) existing i j s (e ∷ es) (d ∷ ds) he hd hf so ks =
      let (at_i, next_i, past_i) = get_elem?-drop_cons existing i e es he in
      let (at_j, next_j, _) = get_elem?-drop_cons db j d ds hd in
      elim (Bool-cases (text_lt d.dir e)) [
        | inl after ↦
            create_step fuel existing i j s (e ∷ es) d ds (unfold next_op in rw (at_i, at_j, after))
              after
              (sync_loop-Align fuel existing i (suc j) (create d s) (e ∷ es) ds he next_j
                (omega arith) so (AreKeys-create (e ∷ es) d s ks))
        | inr not_after ↦ elim (Bool-cases (text_lt e d.dir)) [
          | inl before ↦
              remove_step fuel existing i j s e es (d ∷ ds)
                (unfold next_op in rw (at_i, at_j, not_after, before)) before ks.0
                λ w found.
                  sync_loop-Align fuel (remove_at i existing) (suc i) j (removed e w s) (drop 1 es)
                    (d ∷ ds) past_i hd (omega (arith, length-drop_le es)) (Sorted-drop es so.1)
                    (All-drop _ es (AreKeys-removed es e w s so.0 ks.1))
          | inr not_before ↦
              keep_step fuel existing i j s e es d ds
                (unfold next_op in rw (at_i, at_j, not_after, not_before))
                (text_lt_total e d.dir not_before not_after)
                (sync_loop-Align fuel existing (suc i) (suc j) s es ds next_i next_j (omega arith)
                  so.1 ks.1)
        ]
      ]

abbrev pub dirs : List DbWatchInfo → List Text
dirs = map (λ d. d.dir)

pub AreKeys-keys :
    (m : List (Text × ℕ)) (ks : List Text)
    → ((k : Text) → has_text k ks ≡ true → lookup k m ≢ none)
    → All (λ k. lookup k m ≢ none) ks
AreKeys-keys m [] h = tt
AreKeys-keys m (k ∷ ks) h =
    (h k (ground (arith, text_eq_iff k k)), AreKeys-keys m ks (λ j p. h j (ground arith)))

-- The outcome of `align_watches` in terms of the relation: it ends, without a panic.
pub align_watches-Align :
    (db : List DbWatchInfo) (s : Watches)
    → Distinct (keys s.watches)
    → Aligns (sort_texts (keys s.watches)) db s (align_watches db s)
unfolding align_watches
align_watches-Align db s h =
    sync_loop-Align db (suc (length (sort_texts (keys s.watches)) + length db))
      (sort_texts (keys s.watches)) 0 0 s (sort_texts (keys s.watches)) db refl refl (omega arith)
      (sort_texts-Sorted (keys s.watches) h)
      (All-sort_texts (λ e. lookup e s.watches ≢ none) (keys s.watches)
        (AreKeys-keys s.watches (keys s.watches) (λ k. (has_text-keys k s.watches).0)))
