-- ===== src/Server/Intervals/Tallying.antt =====
-- The loop of GetIntervals (watch_daemon/api_impl.go) over the ticks keeps a collector of their
-- union.
use golang_time_tracker.Base.{
  ◌≡◌, ◌≢◌, refl, ap, ◌∙◌, Bool, true, false, List, [], ◌∷◌, ◌++◌, map, none, some, arith, All,
  if◌then◌else◌, Bool-cases, Option-cases, inl, inr,
}
use golang_time_tracker.Base.Int.{ℤ, pos, ltb_ℤ, sub64, IsTime, ◌≤ℤ◌}
use golang_time_tracker.Base.Halt.{done}
use golang_time_tracker.Base.Text.{Text, text_eq, text_eq_iff, text_eq_refl}
use golang_time_tracker.Base.Table.{lookup, insert, lookup-insert}
use golang_time_tracker.Escape.{unescape}
use golang_time_tracker.Database.{TickRow}
use golang_time_tracker.Client.{GetIntervalsRequest}
use golang_time_tracker.Collector.{Collector, new_collector, add, add_all}
use golang_time_tracker.Server.Intervals.{
  Tally, add_to, with_collector, start_at_prev, tally_row, tally_rows, first_tally, extend_to_now,
}
use golang_time_tracker.Server.Intervals.Repeats.{add-gap, add_at_end, add_again}

-- `m'` is `m` after a call of `add_to` that found its collector.
record AddsTo (k : Text) (t : ℤ) (m m' : List (Text × Collector)) : Type 0 where
  keeps : (j : Text) → lookup j m ≢ none → lookup j m' ≢ none
  union :
      (c : Collector)
      → lookup [] m ≡ some c
      → lookup [] m' ≡ some (if text_eq k [] then (add c t).0 else c)

add_to-AddsTo :
    (k : Text) (t : ℤ) (m : List (Text × Collector))
    → lookup k m ≢ none
    → (m' : List (Text × Collector)) × (add_to k t m ≡ done m') × AddsTo k t m m'
add_to-AddsTo k t m h = elim (Option-cases (lookup k m)) [
  | inl missing ↦ absurd (h missing)
  | inr (c, found) ↦ (
    insert k (add c t).0 m,
    (unfold add_to in rw (found, add_to)),
    record {
      keeps = λ j p. ground (arith, lookup-insert k j (add c t).0 m);
      union = λ d p. ground (arith, lookup-insert k [] (add c t).0 m, text_eq_iff k []);
    },
  )
]

abbrev pub times : List TickRow → List ℤ
times = map (λ row. row.time)

-- The time of the last tick, or `t` if there is none.
abbrev pub last_time : ℤ → List TickRow → ℤ
last_time t [] = t
last_time t (row ∷ rows) = last_time row.time rows

module _ (req : GetIntervalsRequest) (max_event_gap now : ℤ) where
  -- The loop's variables when the ticks so far have made the collector `c` of the union.
  pub record IsTally (c : Collector) (s : Tally) : Type 0 where
    union : lookup [] s.collector ≡ some c
    current : lookup s.prev_label s.collector ≢ none
    settled : (add c s.prev_t).0 ≡ c

  -- A map with the collector `c` of the union and a collector for `label`.
  record Holds (c : Collector) (label : Text) (m : List (Text × Collector)) : Type 0 where
    union : lookup [] m ≡ some c
    has_label : lookup label m ≢ none

  with_collector-Holds :
      (c : Collector) (label : Text) (m : List (Text × Collector))
      → lookup [] m ≡ some c
      → Holds c label (with_collector req max_event_gap now label m)
  unfolding with_collector
  with_collector-Holds c label m h = elim (Option-cases (lookup label m)) [
    | inl missing ↦
        rw (missing, with_collector)
          (record {
            union = ground (arith, lookup-insert label [] fresh m, text_eq_iff label []);
            has_label = ground (arith, lookup-insert label label fresh m, text_eq_iff label label);
          })
    | inr (d, found) ↦ rw (found, with_collector) (record { union = h; has_label = λ n. cc })
  ]
    where
      fresh : Collector
      fresh = record (new_collector req.start req.end max_event_gap now) { label = label }

  start_at_prev-Holds :
      (c : Collector) (label : Text) (s : Tally) (m : List (Text × Collector))
      → (add c s.prev_t).0 ≡ c
      → Holds c label m
      → (m' : List (Text × Collector)) × (start_at_prev req max_event_gap now label s m ≡ done m')
        × Holds c label m'
  unfolding start_at_prev
  start_at_prev-Holds c label s m settled v = elim (Bool-cases (text_eq s.prev_label label)) [
    | inl same ↦ (m, rw same, v)
    | inr new ↦ elim (Bool-cases (ltb_ℤ (pos 0) s.prev_t)) [
      | inl started ↦
          let (m', eq, a) = add_to-AddsTo label s.prev_t m v.has_label in
          (
            m',
            rw (new, started) eq,
            record {
              union = a.union c v.union ∙ (ground arith);
              has_label = a.keeps label v.has_label;
            },
          )
      | inr first ↦ (m, rw (new, first), v)
    ]
  ]

  union_once :
      (c : Collector) (t : ℤ) (b : Bool)
      → pos 0 ≤ℤ c.max_event_gap
      → IsTime t
      → (if text_eq [] []
          then (add (if b then (add c t).0 else c) t).0
          else (if b then (add c t).0 else c))
        ≡ (add c t).0
  union_once c t true hg ht = rw (text_eq_refl []) (add_again c t hg ht)
  union_once c t false hg ht = rw (text_eq_refl [])

  tally_row-IsTally :
      (c : Collector) (row : TickRow) (s : Tally)
      → pos 0 ≤ℤ c.max_event_gap
      → IsTime row.time
      → IsTally c s
      → (s' : Tally) × (tally_row req max_event_gap now row s ≡ done s')
        × IsTally (add c row.time).0 s'
        × (s'.prev_t ≡ row.time)
  unfolding tally_row
  tally_row-IsTally c row s hg ht v =
      let label : Text = unescape row.labels in
      let held = with_collector-Holds c label s.collector v.union in
      let (m, e, w) =
        start_at_prev-Holds c label s (with_collector req max_event_gap now label s.collector)
          v.settled held in
      let (m', e', a') = add_to-AddsTo label row.time m w.has_label in
      let u' : lookup [] m' ≡ some (if text_eq label [] then (add c row.time).0 else c) =
        a'.union c w.union in
      let (m'', e'', a'') = add_to-AddsTo [] row.time m' (λ n. cc) in
      (
        record { collector = m''; prev_label = label; prev_t = row.time },
        rw (e, e', e''),
        record {
          union = a''.union _ u' ∙ ap some (union_once c row.time (text_eq label []) hg ht);
          current = a''.keeps label (a'.keeps label w.has_label);
          settled = add_again c row.time hg ht;
        },
        refl,
      )

  pub tally_rows-IsTally :
      (c : Collector) (rows : List TickRow) (s : Tally)
      → pos 0 ≤ℤ c.max_event_gap
      → All (λ row. IsTime row.time) rows
      → IsTally c s
      → (s' : Tally) × (tally_rows req max_event_gap now rows s ≡ done s')
        × IsTally (add_all c (times rows)) s'
        × (s'.prev_t ≡ last_time s.prev_t rows)
        × ((add_all c (times rows)).max_event_gap ≡ c.max_event_gap)
  unfolding tally_rows add_all
  tally_rows-IsTally c [] s hg ht v = (s, refl, v, refl, refl)
  tally_rows-IsTally c (row ∷ rows) s hg ht v =
      let (s1, e1, v1, p1) = tally_row-IsTally c row s hg ht.0 v in
      let (s2, e2, v2, p2, g2) =
        tally_rows-IsTally (add c row.time).0 rows s1 (rw (add-gap c row.time) hg) ht.1 v1 in
      (s2, rw (e1, tally_rows) e2, v2, p2 ∙ ap (λ t. last_time t rows) p1, g2 ∙ add-gap c row.time)

  -- Another tick now would still extend the last interval.
  abbrev pub is_open : List TickRow → Bool
  is_open rows = ltb_ℤ (sub64 now (last_time (pos 0) rows)) max_event_gap

  -- The ticks that count: those of the table, and one now while the last interval is open.
  abbrev pub counted : List TickRow → List ℤ
  counted rows = times rows ++ (if is_open rows then now ∷ [] else [])

  pub first_tally-IsTally :
      pos 0 ≤ℤ max_event_gap
      → IsTally
          (new_collector req.start req.end max_event_gap now)
          (first_tally req max_event_gap now)
  unfolding first_tally
  first_tally-IsTally hg = record {
    union = lookup-insert [] [] _ [] ∙ (rw (text_eq_refl []));
    current = λ n. ground (
      arith,
      lookup-insert [] [] (new_collector req.start req.end max_event_gap now) [],
      text_eq_refl [],
    );
    settled =
        add_at_end (new_collector req.start req.end max_event_gap now) (pos 0)
          (unfold new_collector in hg) (omega arith) (inr (unfold new_collector in refl));
  }

  -- The map and the end gap behind the loop.
  pub extend_to_now-union :
      (c : Collector) (s : Tally)
      → pos 0 ≤ℤ c.max_event_gap
      → IsTime now
      → IsTally c s
      → (m : List (Text × Collector)) × (extend_to_now req max_event_gap now s
          ≡ done
              (m, if ltb_ℤ (sub64 now s.prev_t) max_event_gap then sub64 now s.prev_t else pos 0))
        × (lookup [] m
            ≡ some (if ltb_ℤ (sub64 now s.prev_t) max_event_gap then (add c now).0 else c))
  unfolding extend_to_now
  extend_to_now-union c s hg ht v = elim (Bool-cases (ltb_ℤ (sub64 now s.prev_t) max_event_gap)) [
    | inl near ↦
        let (m, e, a) = add_to-AddsTo s.prev_label now s.collector v.current in
        let u : lookup [] m ≡ some (if text_eq s.prev_label [] then (add c now).0 else c) =
          a.union c v.union in
        let (m', e', a') = add_to-AddsTo [] now m (λ n. cc) in
        (
          m',
          rw (near, e, e'),
          rw near (a'.union _ u ∙ ap some (union_once c now (text_eq s.prev_label []) hg ht)),
        )
    | inr far ↦ (s.collector, rw far, rw far v.union)
  ]
