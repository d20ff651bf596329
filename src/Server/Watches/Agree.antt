-- ===== src/Server/Watches/Agree.antt =====
-- What syncWatches (watch_daemon/api_impl.go) leaves in `server.watches`: induction on the relation
-- that its loop satisfies.
use golang_time_tracker.Base.{
  ◌≡◌, ◌≢◌, refl, ◌∙◌, ◌⊎◌, true, false, List, [], ◌∷◌, none, some, arith, if◌then◌else◌, length,
  drop, All, inr,
}
use golang_time_tracker.Base.Text.{
  Text, text_lt, text_eq, text_lt_irrefl, text_lt_trans, text_eq_iff,
}
use golang_time_tracker.Base.Sorting.{Sorted, has_text}
use golang_time_tracker.Base.Table.{lookup, lookup-insert, lookup-delete}
use golang_time_tracker.Server.Watches.{DbWatchInfo, Watches, create}
use golang_time_tracker.Server.Watches.Relation.{
  Align, stops, keeps, creates, removes, removed, Precedes, PrecedesDb, AreKeys, AreKeys-create,
  AreKeys-removed, All-drop, Sorted-drop,
}
use golang_time_tracker.Server.Watches.Align.{dirs}

has_text-drop : (k : Text) (es : List Text) → has_text k es ≡ false → has_text k (drop 1 es) ≡ false
has_text-drop k [] h = refl
has_text-drop k (e ∷ es) h = ground arith

-- A directory before the first of a sorted slice is not in it.
pub absent_before :
    (k : Text) (es : List Text) → All (λ e. text_lt k e ≡ true) es → has_text k es ≡ false
absent_before k [] h = refl
absent_before k (e ∷ es) h =
    ground (arith, absent_before k es h.1, text_eq_iff e k, text_lt_irrefl k)

pub All-after :
    (k e : Text) (es : List Text)
    → text_lt k e ≡ true
    → All (λ f. text_lt e f ≡ true) es
    → All (λ f. text_lt k f ≡ true) es
All-after k e [] h hs = tt
All-after k e (f ∷ es) h hs = (text_lt_trans k e f h hs.0, All-after k e es h hs.1)

pub Precedes-all :
    (k : Text) (es : List Text) → Precedes k es → Sorted es → All (λ e. text_lt k e ≡ true) es
Precedes-all k [] h so = tt
Precedes-all k (e ∷ es) h so = (h, All-after k e es h so.0)

Precedes-absent : (k : Text) (es : List Text) → Precedes k es → Sorted es → has_text k es ≡ false
Precedes-absent k [] h so = refl
Precedes-absent k (e ∷ es) h so = absent_before k (e ∷ es) (h, All-after k e es h so.0)

pub PrecedesDb-absent :
    (k : Text) (ds : List DbWatchInfo)
    → PrecedesDb k ds
    → Sorted (dirs ds)
    → has_text k (dirs ds) ≡ false
PrecedesDb-absent k [] h so = refl
PrecedesDb-absent k (d ∷ ds) h so =
    absent_before k (dirs (d ∷ ds)) (h, All-after k d.dir (dirs ds) h so.0)

pub lookup-create :
    (k : Text) (d : DbWatchInfo) (s : Watches)
    → lookup k (create d s).watches
      ≡ (if text_eq d.dir k then some (length s.heap) else lookup k s.watches)
unfolding create
lookup-create k d s = lookup-insert d.dir k (length s.heap) s.watches

-- A directory in neither list keeps its watch, or its lack of one.
pub Align-frame :
    (k : Text) (es : List Text) (ds : List DbWatchInfo) (s t : Watches)
    → Align es ds s t
    → has_text k es ≡ false
    → has_text k (dirs ds) ≡ false
    → lookup k t.watches ≡ lookup k s.watches
Align-frame k _ _ s t stops he hd = refl
Align-frame k _ _ s t (keeps {es = es} {ds = ds} same rest) he hd =
    Align-frame k es ds s t rest (ground arith) (ground arith)
Align-frame k _ _ s t (creates {es = es} {d = d} {ds = ds} before rest) he hd =
    Align-frame k es ds (create d s) t rest he (ground arith)
    ∙ (ground (arith, lookup-create k d s))
Align-frame k _ _ s t (removes {e = e} {es = es} {ds = ds} {w = w} before found rest) he hd =
    Align-frame k (drop 1 es) ds (removed e w s) t rest (has_text-drop k es (ground arith)) hd
    ∙ (ground (arith, lookup-delete e k s.watches))

-- A directory with a watch that is not among the existing ones left keeps having one.
Align-keeps :
    (k : Text) (es : List Text) (ds : List DbWatchInfo) (s t : Watches)
    → Align es ds s t
    → has_text k es ≡ false
    → lookup k s.watches ≢ none
    → lookup k t.watches ≢ none
Align-keeps k _ _ s t stops he h = h
Align-keeps k _ _ s t (keeps {es = es} {ds = ds} same rest) he h =
    Align-keeps k es ds s t rest (ground arith) h
Align-keeps k _ _ s t (creates {es = es} {d = d} {ds = ds} before rest) he h =
    Align-keeps k es ds (create d s) t rest he (ground (arith, lookup-create k d s))
Align-keeps k _ _ s t (removes {e = e} {es = es} {ds = ds} {w = w} before found rest) he h =
    Align-keeps k (drop 1 es) ds (removed e w s) t rest (has_text-drop k es (ground arith))
      (ground (arith, lookup-delete e k s.watches))

-- Every directory of the database is watched at the end.
pub Align-covers :
    (es : List Text) (ds : List DbWatchInfo) (s t : Watches)
    → Align es ds s t
    → Sorted es
    → AreKeys es s
    → All (λ d. lookup d t.watches ≢ none) (dirs ds)
Align-covers _ _ s t stops so ks = tt
Align-covers _ _ s t (keeps {e = e} {es = es} {d = d} {ds = ds} same rest) so ks = (
  rw (← same) (Align-keeps e es ds s t rest (absent_before e es so.0) ks.0),
  Align-covers es ds s t rest so.1 ks.1,
)
Align-covers _ _ s t (creates {es = es} {d = d} {ds = ds} before rest) so ks = (
  Align-keeps d.dir es ds (create d s) t rest (Precedes-absent d.dir es before so)
      (ground (arith, lookup-create d.dir d s, text_eq_iff d.dir d.dir)),
  Align-covers es ds (create d s) t rest so (AreKeys-create es d s ks),
)
Align-covers _ _ s t (removes {e = e} {es = es} {ds = ds} {w = w} before found rest) so ks =
    Align-covers (drop 1 es) ds (removed e w s) t rest (Sorted-drop es so.1)
      (All-drop _ es (AreKeys-removed es e w s so.0 ks.1))

-- A directory that is watched at the end is in the database, or was watched at the start.
Align-origin :
    (k : Text) (es : List Text) (ds : List DbWatchInfo) (s t : Watches)
    → Align es ds s t
    → lookup k t.watches ≢ none
    → (has_text k (dirs ds) ≡ true) ⊎ (lookup k s.watches ≢ none)
Align-origin k _ _ s t stops h = inr h
Align-origin k _ _ s t (keeps {es = es} {ds = ds} same rest) h =
    ground (arith, Align-origin k es ds s t rest h)
Align-origin k _ _ s t (creates {es = es} {d = d} {ds = ds} before rest) h =
    ground (arith, Align-origin k es ds (create d s) t rest h, lookup-create k d s)
Align-origin k _ _ s t (removes {e = e} {es = es} {ds = ds} {w = w} before found rest) h =
    ground
      (arith, Align-origin k (drop 1 es) ds (removed e w s) t rest h, lookup-delete e k s.watches)
