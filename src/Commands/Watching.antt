-- ===== src/Commands/Watching.antt =====
-- The directory that the watch command of cli/main.go sends, and what the daemon makes of it.
use golang_time_tracker.Base.{
  ℕ, ◌≡◌, refl, ap, ◌∙◌, true, [], ◌∷◌, ◌++◌, Option, some, if◌then◌else◌, Bool-cases, inl, inr,
}
use golang_time_tracker.Base.Int.{ℤ}
use golang_time_tracker.Base.Text.{Text, text_eq}
use golang_time_tracker.Base.Paths.{slash, clean, base, is_abs, path_join}
use golang_time_tracker.Database.{Database}
use golang_time_tracker.Server.State.{
  Server, Result, Outcome, returned, blocked, crashed, stuck_loop, ◌>>=◌,
}
use golang_time_tracker.Server.Handlers.{watch}
use golang_time_tracker.Http.Serve.{Clocks}
use golang_time_tracker.Viz.{Templates}
use golang_time_tracker.Remote.{Answer}
use golang_time_tracker.Remote.Urls.{Lacks}
use golang_time_tracker.Remote.Commands.{watch_answered, client_watch_lem}
use golang_time_tracker.Commands.{watch_dir, watch_command}

is_abs-clean : (p : Text) → is_abs p ≡ true → is_abs (clean p) ≡ true
unfolding clean
is_abs-clean p h = rw (clean, h) refl

is_abs-path_join : (wd t : Text) → is_abs wd ≡ true → is_abs (path_join wd t) ≡ true
unfolding path_join
is_abs-path_join [] t h = cc
is_abs-path_join (c ∷ wd) t h = is_abs-clean (c ∷ wd ++ slash ∷ t) h

watch_dir-is_abs :
    (wd arg : Text)
    → is_abs wd ≡ true
    → (dir : Text) × ((watch_dir (some wd) arg ≡ some dir) × (is_abs (clean dir) ≡ true))
unfolding watch_dir
watch_dir-is_abs wd arg h = elim (Bool-cases (is_abs (clean arg))) [
  | inl e ↦ (clean arg, (rw (watch_dir, e) refl, is_abs-clean (clean arg) e))
  | inr e ↦ (
    path_join wd (clean arg),
    (
      rw (watch_dir, e) refl,
      is_abs-clean (path_join wd (clean arg)) (is_abs-path_join wd (clean arg) h),
    ),
  )
]

module _ (D : Database) where
  answer_of : Server D × Result (Unit {0}) → Outcome (Server D × Answer (Unit {0}))
  answer_of r = returned (r.0, watch_answered r.1)

  sent_answer : Server D × Answer (Unit {0}) → Outcome (Server D × Option (Answer (Unit {0})))
  sent_answer r = returned (r.0, some r.1)

  told_twice :
      (o : Outcome (Server D × Result (Unit {0})))
      → ((o >>= answer_of) >>= sent_answer) ≡ (o >>= λ r. returned (r.0, some (watch_answered r.1)))
  unfolding answer_of sent_answer
  told_twice (returned r) = refl
  told_twice blocked = refl
  told_twice crashed = refl
  told_twice stuck_loop = refl

-- For every argument the watch command sends a directory that is absolute once cleaned, and comes
-- to what Watch of the server comes to on it, cleaned, with its last element for an empty label; if
-- the working directory is absolute and the address has no slash.
pub watch_command_lem :
    (D : Database) (midnight : ℕ → ℤ) (T : Templates) (address wd label arg : Text) (c : Clocks)
    (s : Server D)
    → Lacks slash address
    → is_abs wd ≡ true
    → (dir : Text) × ((watch_dir (some wd) arg ≡ some dir)
        × ((is_abs (clean dir) ≡ true)
            × (watch_command D midnight T address (some wd) label arg c s ≡ (
                watch D
                  (record {
                    dir = clean dir;
                    label = if text_eq label [] then base (clean dir) else label;
                  })
                  c.now
                  s
                >>= λ r. returned (r.0, some (watch_answered r.1))))))
unfolding watch_command answer_of sent_answer
watch_command_lem D midnight T address wd label arg c s plain h =
    let (dir, (sent, rooted)) = watch_dir-is_abs wd arg h in
    let o =
      watch D
        (record { dir = clean dir; label = if text_eq label [] then base (clean dir) else label })
        c.now s in
    (
      dir,
      (
        sent,
        (
          rooted,
          rw (watch_command, sent)
              (ap (λ (p : Outcome (Server D × Answer (Unit {0}))). p >>= sent_answer D)
                  (client_watch_lem D midnight T address dir label c s plain rooted)
                ∙ told_twice D o),
        ),
      ),
    )
