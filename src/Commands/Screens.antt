-- ===== src/Commands/Screens.antt =====
-- What the week and today commands of cli/main.go leave on the terminal, frame after frame.
use golang_time_tracker.Base.{
  ℕ, zero, suc, ◌+◌, ◌-◌, ◌%◌, ◌==◌, ltb, ◌≡◌, ◌≢◌, refl, sym, ap, ◌∙◌, Bool, true, List, [], ◌∷◌,
  ◌++◌, All, none, arith, length, length-append, take, take-length_append, if◌then◌else◌, if_true,
  Bool-cases, Option-cases, inl, inr,
}
use mathlib.Core.List.{append_assoc, append-nil}
use golang_time_tracker.Base.Int.{pos, ltb_ℤ}
use golang_time_tracker.Base.Halt.{done, panics, stuck}
use golang_time_tracker.Client.{GetIntervalsResponse}
use golang_time_tracker.Cli.{Row, last_interval, day_row}
use golang_time_tracker.Remote.{Answer, answer, failure}
use golang_time_tracker.Commands.{
  Line, border, row_line, Drawn, drawn, then_draw, go_up, print_row, print_day, print_days,
  week_frame, today_frame, next_tick, draw_frames,
}

-- The daemon has answered, with an end gap only if there is an interval.
unfoldable pub IsRetrieved : Answer GetIntervalsResponse → Type 0
IsRetrieved a =
    (resp : GetIntervalsResponse) × ((a ≡ answer resp)
      × (ltb_ℤ (pos 0) resp.end_gap ≡ true → last_interval resp.intervals ≢ none))

-- The line of a day.
unfoldable pub row_lines : Bool → Answer GetIntervalsResponse → List Line
row_lines include_end_gap (failure e) = []
row_lines include_end_gap (answer resp) = elim (day_row include_end_gap resp) [
  | done row ↦ row_line row ∷ []
  | panics ↦ []
  | stuck ↦ []
]

unfoldable pub day_lines : Bool → ℕ → Answer GetIntervalsResponse → List Line
day_lines include_end_gap day a =
    if day + 1 == 7
    then border ∷ (row_lines include_end_gap a ++ border ∷ [])
    else row_lines include_end_gap a

-- The lines of the days of a week from `day` on.
unfoldable pub week_lines : ℕ → ℕ → Bool → (ℕ → Answer GetIntervalsResponse) → List Line
week_lines zero day include_end_gap ask = []
week_lines (suc count) day include_end_gap ask =
    day_lines include_end_gap day (ask day) ++ week_lines count (day + 1) include_end_gap ask

-- The tick of the round behind these.
unfoldable pub tick_after {ℓ} : {A : Type ℓ} → List A → ℕ → ℕ
tick_after [] tick = tick
tick_after (a ∷ rounds) tick = tick_after rounds (next_tick tick)

day_row_done :
    (include : Bool) (resp : GetIntervalsResponse)
    → (ltb_ℤ (pos 0) resp.end_gap ≡ true → last_interval resp.intervals ≢ none)
    → (row : Row) × (day_row include resp ≡ done row)
unfolding day_row
day_row_done include resp h = elim (Bool-cases (ltb_ℤ (pos 0) resp.end_gap)) [
  | inl e ↦ elim (Option-cases (last_interval resp.intervals)) [
    | inl n ↦ absurd (h e n)
    | inr (last, l) ↦ rw (day_row, e, l) (_, refl)
  ]
  | inr e ↦ rw (day_row, e) (_, refl)
]

print_row_lem :
    (include : Bool) (a : Answer GetIntervalsResponse) (screen : List Line)
    → IsRetrieved a
    → (print_row include a screen ≡ drawn (screen ++ row_lines include a))
      × (length (row_lines include a) ≡ 1)
unfolding IsRetrieved print_row row_lines
print_row_lem include a screen (resp, (e, h)) =
    let (row, r) = day_row_done include resp h in rw e (rw (print_row, row_lines, r) (refl, refl))

print_day_lem :
    (include : Bool) (day : ℕ) (a : Answer GetIntervalsResponse) (screen : List Line)
    → IsRetrieved a
    → print_day include day a screen ≡ drawn (screen ++ day_lines include day a)
unfolding print_day day_lines
print_day_lem include day a screen h = elim (Bool-cases (day + 1 == 7)) [
  | inl e ↦
      let row : print_row include a (screen ++ border ∷ [])
          ≡ drawn ((screen ++ border ∷ []) ++ row_lines include a) =
        (print_row_lem include a (screen ++ border ∷ []) h).0 in
      rw (print_day, day_lines, e, row)
        (ap drawn (
          ap (λ s. s ++ border ∷ []) (append_assoc screen (border ∷ []) (row_lines include a))
          ∙ append_assoc screen (border ∷ row_lines include a) (border ∷ [])))
  | inr e ↦ rw (print_day, day_lines, e) (print_row_lem include a screen h).0
]

print_days_lem :
    (count day : ℕ) (include : Bool) (ask : ℕ → Answer GetIntervalsResponse) (screen : List Line)
    → ((d : ℕ) → IsRetrieved (ask d))
    → print_days count day include ask screen ≡ drawn (screen ++ week_lines count day include ask)
unfolding print_days week_lines
print_days_lem zero day include ask screen h = ap drawn (sym (append-nil screen))
print_days_lem (suc count) day include ask screen h =
    ap (λ o. then_draw o (print_days count (day + 1) include ask))
      (print_day_lem include day (ask day) screen (h day))
    ∙ print_days_lem count (day + 1) include ask (screen ++ day_lines include day (ask day)) h
    ∙ ap drawn (
        append_assoc screen (day_lines include day (ask day))
          (week_lines count (day + 1) include ask))

length-day_lines :
    (include : Bool) (day : ℕ) (a : Answer GetIntervalsResponse)
    → IsRetrieved a
    → length (day_lines include day a) ≡ (if day + 1 == 7 then 3 else 1)
unfolding day_lines
length-day_lines include day a h =
    let one : length (row_lines include a) ≡ 1 = (print_row_lem include a [] h).1 in
    elim (Bool-cases (day + 1 == 7)) [
      | inl e ↦
          rw (day_lines, e) (omega (arith, one, length-append (row_lines include a) (border ∷ [])))
      | inr e ↦ rw (day_lines, e) one
    ]

line_count : ℕ → ℕ → ℕ
line_count zero day = 0
line_count (suc count) day = (if day + 1 == 7 then 3 else 1) + line_count count (day + 1)

length-week_lines :
    (count day : ℕ) (include : Bool) (ask : ℕ → Answer GetIntervalsResponse)
    → ((d : ℕ) → IsRetrieved (ask d))
    → length (week_lines count day include ask) ≡ line_count count day
unfolding week_lines line_count
length-week_lines zero day include ask h = refl
length-week_lines (suc count) day include ask h =
    length-append (day_lines include day (ask day)) (week_lines count (day + 1) include ask)
    ∙ ap (λ n. n + length (week_lines count (day + 1) include ask))
        (length-day_lines include day (ask day) (h day))
    ∙ ap (◌+◌ (if day + 1 == 7 then 3 else 1)) (length-week_lines count (day + 1) include ask h)

nine : line_count 7 0 ≡ 9
unfolding line_count
nine = refl

go_up-append : (n : ℕ) (screen old : List Line) → length old ≡ n → go_up n (screen ++ old) ≡ screen
unfolding go_up
go_up-append n screen old h =
    ap (λ k. take k (screen ++ old)) (omega (arith, length-append screen old, h))
    ∙ take-length_append screen old

module _ {ℓ κ} {A : Type ℓ} (frame : ℕ → A → List Line → Drawn) (n : ℕ)
    (content : Bool → A → List Line) (Good : A → Type κ)
    (size : (include : Bool) (a : A) → Good a → length (content include a) ≡ n)
    (draws : (tick : ℕ) (a : A) (screen : List Line)
      → Good a
      → frame tick a screen
        ≡ drawn ((if ltb 0 tick then go_up n screen else screen) ++ content (tick == 1) a)) where
  base_of : ℕ → List Line → List Line
  base_of tick screen = if ltb 0 tick then go_up n screen else screen

  next_base :
      (tick : ℕ) (screen old : List Line)
      → length old ≡ n
      → base_of (next_tick tick) (screen ++ old) ≡ screen
  unfolding base_of next_tick
  next_base tick screen old h =
      let later : ltb 0 (2 - (tick + 1) % 2) ≡ true = ground arith in
      if_true (ltb 0 (2 - (tick + 1) % 2)) _ _ later ∙ go_up-append n screen old h

  frames_from :
      (tick : ℕ) (rounds : List A) (last : A) (screen shown : List Line)
      → base_of tick shown ≡ screen
      → All Good rounds
      → Good last
      → draw_frames frame tick (rounds ++ last ∷ []) shown
        ≡ drawn (screen ++ content (tick_after rounds tick == 1) last)
  unfolding draw_frames tick_after base_of
  frames_from tick [] last screen shown e hs h =
      ap (λ o. then_draw o (draw_frames frame (next_tick tick) [])) (draws tick last shown h)
      ∙ ap (λ b. drawn (b ++ content (tick == 1) last)) e
  frames_from tick (a ∷ rounds) last screen shown e (g, gs) h =
      ap (λ o. then_draw o (draw_frames frame (next_tick tick) (rounds ++ last ∷ [])))
        (draws tick a shown g ∙ ap (λ b. drawn (b ++ content (tick == 1) a)) e)
      ∙ frames_from (next_tick tick) rounds last screen (screen ++ content (tick == 1) a)
          (next_base tick screen (content (tick == 1) a) (size (tick == 1) a g)) gs h

-- After any number of frames of the week command the terminal shows what was there before, and then
-- just the lines of the last frame, with its end gap if the tick is 1; if the daemon has answered,
-- with an end gap only where there is an interval.
pub draw_frames-week_frame :
    (rounds : List (ℕ → Answer GetIntervalsResponse)) (last : ℕ → Answer GetIntervalsResponse)
    (screen : List Line)
    → All (λ ask. (d : ℕ) → IsRetrieved (ask d)) rounds
    → ((d : ℕ) → IsRetrieved (last d))
    → draw_frames week_frame 0 (rounds ++ last ∷ []) screen
      ≡ drawn (screen ++ week_lines 7 0 (tick_after rounds 0 == 1) last)
unfolding week_frame base_of
draw_frames-week_frame rounds last screen hs h =
    frames_from week_frame 9 (week_lines 7 0) (λ ask. (d : ℕ) → IsRetrieved (ask d))
      (λ include ask g. length-week_lines 7 0 include ask g ∙ nine)
      (λ tick ask s g. print_days_lem 7 0 (tick == 1) ask (if ltb 0 tick then go_up 9 s else s) g) 0
      rounds last screen screen refl hs h

draw_frames-today_frame :
    (rounds : List (Answer GetIntervalsResponse)) (last : Answer GetIntervalsResponse)
    (screen : List Line)
    → All IsRetrieved rounds
    → IsRetrieved last
    → draw_frames today_frame 0 (rounds ++ last ∷ []) screen
      ≡ drawn (screen ++ row_lines (tick_after rounds 0 == 1) last)
unfolding today_frame base_of
draw_frames-today_frame rounds last screen hs h =
    frames_from today_frame 1 row_lines IsRetrieved
      (λ include a g. (print_row_lem include a [] g).1)
      (λ tick a s g. (print_row_lem (tick == 1) a (if ltb 0 tick then go_up 1 s else s) g).0) 0
      rounds last screen screen refl hs h
