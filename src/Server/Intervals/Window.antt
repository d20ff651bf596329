-- ===== src/Server/Intervals/Window.antt =====
-- GetIntervals (watch_daemon/api_impl.go) asks the database for the ticks from the maximal gap
-- before the request to the maximal gap after it. Why these are enough.
use golang_time_tracker.Base.{
  ◌≡◌, refl, ap, Bool, true, false, ◌&&◌, ◌||◌, List, [], ◌∷◌, ◌++◌, arith, if◌then◌else◌,
  Bool-cases, inl, inr,
}
use golang_time_tracker.Base.Int.{
  ℤ, pos, leb_ℤ, ltb_ℤ, sub64, sub64-eq, IsTime, int_laws, ◌+ℤ◌, ◌-ℤ◌, ◌≤ℤ◌, ◌<ℤ◌,
}
use golang_time_tracker.Client.{GetIntervalsRequest}
use golang_time_tracker.Database.{TickRow}
use golang_time_tracker.Database.Rules.{ticks_between}
use golang_time_tracker.Collector.Coverage.{works, works_from, Ascends}
use golang_time_tracker.Server.Intervals.Tallying.{times, last_time, counted}

module _ (gap now x : ℤ) where
  -- The moment `x` lies between two neighbours of `a ∷ rows` that are at most `gap` apart, or
  -- between the last of them and now, if that is less than `gap` ago.
  abbrev pub worked_from : ℤ → List TickRow → Bool
  worked_from a [] = leb_ℤ a x && ltb_ℤ x now && ltb_ℤ (now -ℤ a) gap
  worked_from a (row ∷ rows) =
      (leb_ℤ a x && ltb_ℤ x row.time && leb_ℤ (row.time -ℤ a) gap) || worked_from row.time rows

  abbrev pub worked : List TickRow → Bool
  worked [] = false
  worked (row ∷ rows) = worked_from row.time rows

  last_time-le : (a : ℤ) (rows : List TickRow) → Ascends a (times rows) → a ≤ℤ last_time a rows
  last_time-le a [] h = omega arith
  last_time-le a (row ∷ rows) h = omega (arith, last_time-le row.time rows h.2)

  worked_from-le :
      (a : ℤ) (rows : List TickRow) → Ascends a (times rows) → worked_from a rows ≡ true → a ≤ℤ x
  worked_from-le a [] h w = ground arith
  worked_from-le a (row ∷ rows) h w = ground (arith, worked_from-le row.time rows h.2)

  module _ (lo hi : ℤ) where
    between-in :
        (row : TickRow) (rows : List TickRow)
        → lo ≤ℤ row.time
        → row.time ≤ℤ hi
        → ticks_between lo hi (row ∷ rows) ≡ row ∷ ticks_between lo hi rows
    unfolding ticks_between
    between-in row rows a b = ground arith

    between-below :
        (row : TickRow) (rows : List TickRow)
        → row.time <ℤ lo
        → ticks_between lo hi (row ∷ rows) ≡ ticks_between lo hi rows
    unfolding ticks_between
    between-below row rows a = ground arith

    between-above :
        (a : ℤ) (rows : List TickRow)
        → Ascends a (times rows)
        → hi <ℤ a
        → ticks_between lo hi rows ≡ []
    unfolding ticks_between
    between-above a [] h o = refl
    between-above a (row ∷ rows) h o = ground (arith, between-above row.time rows h.2)

    -- Where the next tick is above the range, `x` is not worked from `a` on.
    worked_from-above :
        (a : ℤ) (row : TickRow) (rows : List TickRow)
        → Ascends row.time (times rows)
        → hi <ℤ row.time
        → x +ℤ gap <ℤ hi
        → pos 0 ≤ℤ gap
        → last_time row.time rows ≤ℤ now
        → (worked_from a [] ≡ false)
          × (worked_from a (row ∷ rows) ≡ false)
          × (worked_from row.time rows ≡ false)
    worked_from-above a row rows h o far g le =
        let later : row.time ≤ℤ now = grind (int_laws, last_time-le row.time rows h) in
        let rest : worked_from row.time rows ≡ false =
          elim (Bool-cases (worked_from row.time rows)) [
            | inl e ↦ absurd (grind (int_laws, worked_from-le row.time rows h e))
            | inr e ↦ e
          ] in
        (grind int_laws, rw rest (grind int_laws), rest)

    worked_from-inside :
        (a : ℤ) (rows : List TickRow)
        → Ascends a (times rows)
        → lo ≤ℤ a
        → x +ℤ gap <ℤ hi
        → pos 0 ≤ℤ gap
        → last_time a rows ≤ℤ now
        → worked_from a (ticks_between lo hi rows) ≡ worked_from a rows
    worked_from-inside a [] h la far g le = unfold ticks_between in refl
    worked_from-inside a (row ∷ rows) h la far g le = elim (Bool-cases (leb_ℤ row.time hi)) [
      | inl e ↦ rw (between-in row rows (omega arith) (ground arith)) (
          ap (λ w. (leb_ℤ a x && ltb_ℤ x row.time && leb_ℤ (row.time -ℤ a) gap) || w)
            (worked_from-inside row.time rows h.2 (omega arith) far g le))
      | inr e ↦
          let (none_left, none_there, rest) =
            worked_from-above a row rows h.2 (ground arith) far g le in
          let same : row.time ≤ℤ row.time = omega arith in
          rw (between-above row.time (row ∷ rows) (same, h.1, h.2) (ground arith), none_there)
            none_left
    ]

    worked-between :
        (row : TickRow) (rows : List TickRow)
        → IsTime row.time
        → Ascends row.time (times rows)
        → lo ≤ℤ row.time
        → x +ℤ gap <ℤ hi
        → pos 0 ≤ℤ gap
        → last_time row.time rows ≤ℤ now
        → worked (ticks_between lo hi (row ∷ rows)) ≡ worked_from row.time rows
    worked-between row rows t h la far g le = elim (Bool-cases (leb_ℤ row.time hi)) [
      | inl e ↦
          rw (between-in row rows la (ground arith))
            (worked_from-inside row.time rows h la far g le)
      | inr e ↦
          let (none_left, none_there, rest) =
            worked_from-above row.time row rows h (ground arith) far g le in
          let same : row.time ≤ℤ row.time = omega arith in
          rw (between-above row.time (row ∷ rows) (same, t, h) (ground arith), rest) refl
    ]

    worked_from-before :
        (a : ℤ) (rows : List TickRow)
        → Ascends a (times rows)
        → a <ℤ lo
        → lo +ℤ gap ≤ℤ x
        → x +ℤ gap <ℤ hi
        → pos 0 ≤ℤ gap
        → last_time a rows ≤ℤ now
        → worked (ticks_between lo hi rows) ≡ worked_from a rows
    worked_from-before a [] h al near far g le = unfold ticks_between in grind int_laws
    worked_from-before a (row ∷ rows) h al near far g le =
        let apart : leb_ℤ a x && ltb_ℤ x row.time && leb_ℤ (row.time -ℤ a) gap ≡ false =
          grind int_laws in
        rw apart (elim (Bool-cases (ltb_ℤ row.time lo)) [
          | inl e ↦
              rw (between-below row rows (ground arith))
                (worked_from-before row.time rows h.2 (ground arith) near far g le)
          | inr e ↦ worked-between row rows h.1 h.2 (ground arith) far g le
        ])

    -- The ticks from `lo` to `hi` tell of `x` what all of them do.
    pub worked-ticks_between :
        (rows : List TickRow)
        → Ascends (pos 0) (times rows)
        → lo +ℤ gap ≤ℤ x
        → x +ℤ gap <ℤ hi
        → pos 0 ≤ℤ gap
        → last_time (pos 0) rows ≤ℤ now
        → worked (ticks_between lo hi rows) ≡ worked rows
    worked-ticks_between [] h near far g le = unfold ticks_between in refl
    worked-ticks_between (row ∷ rows) h near far g le = elim (Bool-cases (ltb_ℤ row.time lo)) [
      | inl e ↦
          rw (between-below row rows (ground arith))
            (worked_from-before row.time rows h.2 (ground arith) near far g le)
      | inr e ↦ worked-between row rows h.1 h.2 (ground arith) far g le
    ]

works_from-counted :
    (gap now x a : ℤ) (rows : List TickRow)
    → IsTime now
    → IsTime a
    → Ascends a (times rows)
    → works_from gap x a
        (times rows ++ (if ltb_ℤ (sub64 now (last_time a rows)) gap then now ∷ [] else []))
      ≡ worked_from gap now x a rows
works_from-counted gap now x a [] t ta h = elim (Bool-cases (ltb_ℤ (now -ℤ a) gap)) [
  | inl e ↦ rw (sub64-eq now a t ta, e) (ground arith)
  | inr e ↦ rw (sub64-eq now a t ta, e) (ground arith)
]
works_from-counted gap now x a (row ∷ rows) t ta h =
    ap (λ w. (leb_ℤ a x && ltb_ℤ x row.time && leb_ℤ (row.time -ℤ a) gap) || w)
      (works_from-counted gap now x row.time rows t h.1 h.2)

-- What counts of the ticks of a query tells where there is work.
pub works-counted :
    (req : GetIntervalsRequest) (gap now x : ℤ) (rows : List TickRow)
    → IsTime now
    → Ascends (pos 0) (times rows)
    → works gap x (counted req gap now rows) ≡ worked gap now x rows
works-counted req gap now x [] t h = ground arith
works-counted req gap now x (row ∷ rows) t h = works_from-counted gap now x row.time rows t h.1 h.2
