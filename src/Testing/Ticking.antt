-- ===== src/Testing/Ticking.antt =====
-- What TickAt of watch_daemon/testlib.go leaves in the database.
use golang_time_tracker.Base.{ℕ, ◌≡◌, refl, ap, true, false, List, [], ◌∷◌, some, All}
use golang_time_tracker.Base.Int.{ℤ}
use golang_time_tracker.Base.Text.{Text, text_eq}
use golang_time_tracker.Base.Paths.{slash}
use golang_time_tracker.Client.{TickResponse}
use golang_time_tracker.Clock.{TestingClock, add, now}
use golang_time_tracker.Database.{Database}
use golang_time_tracker.Database.Rules.{Rules, IsVerbatim}
use golang_time_tracker.Server.State.{
  Server, Outcome, returned, blocked, crashed, stuck_loop, Result, ok, err, ◌>>=◌,
}
use golang_time_tracker.Server.Handlers.{tick}
use golang_time_tracker.Server.Calls.{call_tick, perform, left, Runs, rests, goes, Runs-trans}
use golang_time_tracker.Server.Lasting.Calls.{IsFair}
use golang_time_tracker.Server.Runs.{Holds, perform-Holds}
use golang_time_tracker.Server.Keeping.{KeepsCall, tick_stays}
use golang_time_tracker.Viz.{Templates}
use golang_time_tracker.Remote.{answer, failure}
use golang_time_tracker.Remote.Urls.{Lacks}
use golang_time_tracker.Remote.Refines.{told, answered}
use golang_time_tracker.Remote.Commands.{client_tick_lem}
use golang_time_tracker.Testing.{minutes, unix, seen, tick_at}

-- The seconds at which TickAt sends its ticks.
unfoldable tick_seconds : List ℤ → TestingClock → List ℤ
tick_seconds [] clock = []
tick_seconds (i ∷ intervals) clock =
    let later = add (minutes i) clock in unix (now later) ∷ tick_seconds intervals later

module _ (D : Database) (R : Rules D) (midnight : ℕ → ℤ) (T : Templates) (address : Text) where
  abbrev Passes : Text → List ℤ → TestingClock → ℤ → Server D → Server D → TestingClock → Type 0
  Passes label intervals clock started s t end =
      tick_at D midnight T address label intervals clock started s ≡ returned (t, end, true)

  -- The first tick of a TickAt that passes, and the rest.
  first_tick :
      (label : Text) (i : ℤ) (intervals : List ℤ) (clock end : TestingClock) (started : ℤ)
      (s t : Server D)
      → Lacks slash address
      → text_eq label [] ≡ false
      → Passes label (i ∷ intervals) clock started s t end
      → (s1 : Server D) × (resp : TickResponse) × (tick D
            (some (record { label = label }))
            (unix (now (add (minutes i) clock)))
            s
          ≡ returned (s1, ok resp))
        × Passes label intervals (add (minutes i) clock) started s1 t end
  unfolding tick_at seen answered
  first_tick label i intervals clock end started s t plain named h = ended _ (
      rw
        (
          tick_at,
          client_tick_lem D midnight T address label (seen (add (minutes i) clock) started) s plain,
          named,
        )
        at h)
    where
      ended :
          (o : Outcome (Server D × Result TickResponse))
          → (told D o >>= λ r. elim r.1 [
            | answer resp ↦
                tick_at D midnight T address label intervals (add (minutes i) clock) started r.0
            | failure e ↦ returned (r.0, add (minutes i) clock, false)
          ])
            ≡ returned (t, end, true)
          → (s1 : Server D) × (resp : TickResponse) × (o ≡ returned (s1, ok resp))
            × Passes label intervals (add (minutes i) clock) started s1 t end
      ended (returned (s1, ok resp)) e = (s1, resp, refl, e)
      ended (returned (s1, err x)) e = cc
      ended blocked e = cc
      ended crashed e = cc
      ended stuck_loop e = cc

  abbrev Goes : Server D → Server D → Type 0
  Goes = Runs D (λ u c. IsFair D R u c × KeepsCall c)

  -- A TickAt that passes is a row of calls of Tick.
  Passes-Runs :
      (label : Text) (intervals : List ℤ) (clock end : TestingClock) (started : ℤ) (s t : Server D)
      → Lacks slash address
      → text_eq label [] ≡ false
      → IsVerbatim label
      → Passes label intervals clock started s t end
      → Goes s t
  unfolding tick_at perform
  Passes-Runs label [] clock end started s t plain named v h =
      let same : s ≡ t = cc in rw (← same) rests
  Passes-Runs label (i ∷ intervals) clock end started s t plain named v h =
      let (s1, resp, ticked, rest) =
        first_tick label i intervals clock end started s t plain named h in
      Runs-trans D _ s s1 t
        (goes (call_tick (some (record { label = label })) (unix (now (add (minutes i) clock))))
          rests (v, v) (ap left ticked))
        (Passes-Runs label intervals (add (minutes i) clock) end started s1 t plain named v rest)

  -- After a TickAt that passes, with a label of plain printable characters that is not empty and an
  -- address without a slash, the database holds a tick with the label at each of its seconds.
  tick_at-ticked :
      (label : Text) (intervals : List ℤ) (clock end : TestingClock) (started : ℤ) (s t : Server D)
      → Holds D R s
      → Lacks slash address
      → text_eq label [] ≡ false
      → IsVerbatim label
      → tick_at D midnight T address label intervals clock started s ≡ returned (t, end, true)
      → All (λ u. R.tick_at t.db u ≡ some label) (tick_seconds intervals clock)
  unfolding tick_seconds perform
  tick_at-ticked label [] clock end started s t holds plain named v h = tt
  tick_at-ticked label (i ∷ intervals) clock end started s t holds plain named v h =
      let later : TestingClock = add (minutes i) clock in
      let (s1, resp, ticked, rest) =
        first_tick label i intervals clock end started s t plain named h in
      (
        tick_stays D R (record { label = label }) (unix (now later)) resp s s1 t holds v ticked
            (Passes-Runs label intervals later end started s1 t plain named v rest),
        tick_at-ticked label intervals later end started s1 t
            (perform-Holds D R (call_tick (some (record { label = label })) (unix (now later))) s s1
              holds v (ap left ticked))
            plain named v rest,
      )
