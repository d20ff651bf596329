-- ===== src/Server/Intervals/Order.antt =====
-- The rows that GetIntervals (watch_daemon/api_impl.go) reads, where they come in the order of
-- their times: a list of times has one such order.
use golang_time_tracker.Base.{◌≡◌, refl, List, [], ◌∷◌, arith, All}
use golang_time_tracker.Base.Int.{ℤ, pos, ◌≤ℤ◌, ◌<ℤ◌}
use mathlib.Core.Path.{ap₂}
use mathlib.Core.HLevel.{⊥_prop}
use mathlib.Core.Logic.{∥∥₁_elim}
use mathlib.Core.List.{Memᴰ, Perm, mem-cons_self}
use mathlib.Core.List.Perm
use golang_time_tracker.Database.{TickRow}
use golang_time_tracker.Collector.Coverage.{Ascends}
use golang_time_tracker.Server.Intervals.Tallying.{times, last_time}
use golang_time_tracker.Server.Intervals.Report.{AreTicks}
use golang_time_tracker.Server.Intervals.Window.{worked, worked_from}

not_before : (a b : ℤ) (l : List ℤ) → Ascends a l → Memᴰ b l → a ≤ℤ b
not_before a b [] h m = elim m [ ]
not_before a b (c ∷ l) h (Memᴰ.head e) = rw e h.0
not_before a b (c ∷ l) h (Memᴰ.tail m) = omega (arith, not_before c b l h.2 m, h.0)

-- The head of an ascending list is not above any of its members.
heads_le : (a b : ℤ) (l r : List ℤ) → Ascends a l → Perm (b ∷ r) (a ∷ l) → ¬ (b <ℤ a)
heads_le a b l r h p lt = ∥∥₁_elim ((Perm.mem_iff p).0 mem-cons_self) ⊥_prop below
  where
    below : Memᴰ b (a ∷ l) → ⊥
    below (Memᴰ.head e) = let same : b ≡ a = e in omega (arith, rw same at lt)
    below (Memᴰ.tail m) = omega (arith, not_before a b l h m)

le_antisym : (a b : ℤ) → ¬ (b <ℤ a) → ¬ (a <ℤ b) → a ≡ b
le_antisym a b h k = ground arith

pub Ascends-unique : (a b : ℤ) (l r : List ℤ) → Ascends a l → Ascends b r → Perm l r → l ≡ r
Ascends-unique a b [] r h k p = Perm.nil-eq p
Ascends-unique a b (x ∷ l) [] h k p = Perm.eq-nil p
Ascends-unique a b (x ∷ l) (y ∷ r) h k p =
    let heads : x ≡ y =
      le_antisym x y (heads_le x y l r h.2 (Perm.symm p)) (heads_le y x r l k.2 p) in
    let tails = Perm.cons_inv (Perm.trans p (Perm.symm (Perm.cons' heads Perm.rfl))) in
    ap₂ ◌∷◌ heads (Ascends-unique x y l r h.2 k.2 tails)

module _ (gap now : ℤ) where
  worked_from-times :
      (x a b : ℤ) (l r : List TickRow)
      → a ≡ b
      → times l ≡ times r
      → worked_from gap now x a l ≡ worked_from gap now x b r
  worked_from-times x a b [] [] e h = rw e refl
  worked_from-times x a b [] (s ∷ r) e h = cc
  worked_from-times x a b (t ∷ l) [] e h = cc
  worked_from-times x a b (t ∷ l) (s ∷ r) e h =
      let same : t.time ≡ s.time = cc in
      let rest = worked_from-times x t.time s.time l r same cc in rw (e, rest, same) refl

  pub worked-times :
      (x : ℤ) (l r : List TickRow) → times l ≡ times r → worked gap now x l ≡ worked gap now x r
  worked-times x [] [] h = refl
  worked-times x [] (s ∷ r) h = cc
  worked-times x (t ∷ l) [] h = cc
  worked-times x (t ∷ l) (s ∷ r) h =
      let same : t.time ≡ s.time = cc in
      let rest : times l ≡ times r = cc in worked_from-times x t.time s.time l r same rest

  last_time-times :
      (a b : ℤ) (l r : List TickRow) → a ≡ b → times l ≡ times r → last_time a l ≡ last_time b r
  last_time-times a b [] [] e h = e
  last_time-times a b [] (s ∷ r) e h = cc
  last_time-times a b (t ∷ l) [] e h = cc
  last_time-times a b (t ∷ l) (s ∷ r) e h =
      let same : t.time ≡ s.time = cc in
      let rest : times l ≡ times r = cc in last_time-times t.time s.time l r same rest

  All-times :
      (l r : List TickRow)
      → times l ≡ times r
      → All (λ row. gap <ℤ row.time) l
      → All (λ row. gap <ℤ row.time) r
  All-times [] [] h k = tt
  All-times [] (s ∷ r) h k = cc
  All-times (t ∷ l) [] h k = cc
  All-times (t ∷ l) (s ∷ r) h k =
      let same : t.time ≡ s.time = cc in
      let rest : times l ≡ times r = cc in (rw (← same) k.0, All-times l r rest k.1)

  -- Other rows with the same times.
  pub AreTicks-times :
      (l r : List TickRow) → times l ≡ times r → AreTicks gap now l → AreTicks gap now r
  AreTicks-times l r h v = record {
    ascend = rw (← h) v.ascend;
    after_epoch = All-times l r h v.after_epoch;
    no_future = rw (← last_time-times (pos 0) (pos 0) l r refl h) v.no_future;
    now_time = v.now_time;
    gap_time = v.gap_time;
    gap_nonneg = v.gap_nonneg;
  }

  -- Rows in order that are those of a table in some order have the same times.
  pub read-times :
      (l r : List TickRow)
      → Ascends (pos 0) (times l)
      → AreTicks gap now r
      → Perm l r
      → times l ≡ times r
  read-times l r h v p =
      Ascends-unique (pos 0) (pos 0) (times l) (times r) h v.ascend (Perm.map (λ row. row.time) p)
