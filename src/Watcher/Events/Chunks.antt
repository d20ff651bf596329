-- ===== src/Watcher/Events/Chunks.antt =====
-- The bytes that pkg/watcher/watcher.go reads may be cut anywhere, also within an event: what
-- forEachEvent leaves over is kept until more is read.
use golang_time_tracker.Base.{
  ℕ, zero, suc, ◌+◌, ◌≤◌, ◌<◌, ◌≡◌, refl, sym, ap, ◌∙◌, List, [], ◌∷◌, ◌++◌, none, some, arith,
  length, length-append, length-drop, drop, take, Option-cases, inl, inr,
}
use golang_time_tracker.Watcher.{
  WatchEvent, Os, Ended, finished, failed, panicked, out_of_fuel, ◌>>=◌, FileWatcher,
}
use golang_time_tracker.Watcher.Events.{
  byte_at, uint32_at, int32_at, Frame, frame_of, resume, first_event, handle_frame, Reading,
  event_loop, for_each_event,
}

byte_at-append : (a b : List ℕ) (i : ℕ) → i < length a → byte_at (a ++ b) i ≡ byte_at a i
unfolding byte_at
byte_at-append [] b i h = absurd (omega arith)
byte_at-append (x ∷ a) b zero h = refl
byte_at-append (x ∷ a) b (suc i) h = byte_at-append a b i (omega arith)

uint32_at-append : (a b : List ℕ) (i : ℕ) → i + 4 ≤ length a → uint32_at (a ++ b) i ≡ uint32_at a i
unfolding uint32_at
uint32_at-append a b i h =
    rw
      (
        byte_at-append a b i (omega arith),
        byte_at-append a b (i + 1) (omega arith),
        byte_at-append a b (i + 2) (omega arith),
        byte_at-append a b (i + 3) (omega arith),
      )
      refl

int32_at-append : (a b : List ℕ) (i : ℕ) → i + 4 ≤ length a → int32_at (a ++ b) i ≡ int32_at a i
unfolding int32_at
int32_at-append a b i h = rw (uint32_at-append a b i h) refl

take-append_le : (n : ℕ) (a b : List ℕ) → n ≤ length a → take n (a ++ b) ≡ take n a
take-append_le zero a b h = refl
take-append_le (suc n) [] b h = absurd (omega arith)
take-append_le (suc n) (x ∷ a) b h = ap (◌∷◌ x) (take-append_le n a b (omega arith))

drop-append_le : (n : ℕ) (a b : List ℕ) → n ≤ length a → drop n (a ++ b) ≡ drop n a ++ b
drop-append_le zero a b h = refl
drop-append_le (suc n) [] b h = absurd (omega arith)
drop-append_le (suc n) (x ∷ a) b h = drop-append_le n a b (omega arith)

-- What is known where the bytes hold an event in full.
first_event-some :
    (buf : List ℕ) (f : Frame)
    → first_event buf ≡ some f
    → (16 + uint32_at buf 12 ≤ length buf) × (f ≡ frame_of buf)
unfolding first_event
first_event-some buf f h = (ground (arith, h), ground (arith, h))

pub first_event_complete :
    (buf : List ℕ) → 16 + uint32_at buf 12 ≤ length buf → first_event buf ≡ some (frame_of buf)
unfolding first_event
first_event_complete buf h = ground arith

frame_of-append :
    (a b : List ℕ)
    → 16 + uint32_at a 12 ≤ length a
    → frame_of (a ++ b) ≡ record (frame_of a) { rest = (frame_of a).rest ++ b }
unfolding frame_of
frame_of-append a b enough =
    let long : 16 ≤ length a = omega arith in
    let name : take (uint32_at a 12) (drop 16 (a ++ b)) ≡ take (uint32_at a 12) (drop 16 a) =
      ap (take (uint32_at a 12)) (drop-append_le 16 a b long)
      ∙ take-append_le (uint32_at a 12) (drop 16 a) b (omega (arith, length-drop 16 a)) in
    rw
      (
        uint32_at-append a b 12 long,
        uint32_at-append a b 4 (omega arith),
        int32_at-append a b 0 (omega arith),
        name,
        drop-append_le (16 + uint32_at a 12) a b enough,
      )
      refl

first_event-append :
    (a b : List ℕ) (f : Frame)
    → first_event a ≡ some f
    → first_event (a ++ b) ≡ some (record f { rest = f.rest ++ b })
first_event-append a b f h =
    let (enough, same) = first_event-some a f h in
    first_event_complete (a ++ b)
      (rw (uint32_at-append a b 12 (omega arith)) (omega (arith, length-append a b)))
    ∙ ap some (
        frame_of-append a b enough ∙ ap (λ (g : Frame). record g { rest = g.rest ++ b }) (sym same))

-- An event takes bytes away.
pub first_event-shorter :
    (buf : List ℕ) (f : Frame) → first_event buf ≡ some f → length f.rest < length buf
unfolding frame_of
first_event-shorter buf f h =
    let (enough, same) = first_event-some buf f h in
    let rest : f.rest ≡ drop (16 + uint32_at buf 12) buf = ap (λ (g : Frame). g.rest) same in
    rw rest (omega (arith, length-drop (16 + uint32_at buf 12) buf))

first_event-nil : first_event [] ≡ none
unfolding first_event
first_event-nil = refl

resume-ext :
    (O : Os) (f g : FileWatcher O → Ended (Reading O)) (r : Ended (FileWatcher O))
    → ((w : FileWatcher O) → f w ≡ g w)
    → resume O f r ≡ resume O g r
unfolding resume
resume-ext O f g (finished w) h = h w
resume-ext O f g (failed e w) h = refl
resume-ext O f g panicked h = refl
resume-ext O f g out_of_fuel h = refl

module _ (O : Os) (apply : WatchEvent → FileWatcher O → Ended (FileWatcher O)) where
  event_loop-nil : (n : ℕ) (w : FileWatcher O) → event_loop O apply n [] w ≡ finished (w, [])
  unfolding event_loop first_event
  event_loop-nil zero w = refl
  event_loop-nil (suc n) w = refl

  -- With the bytes as fuel the loop never runs out of it.
  event_loop-enough :
      (m n : ℕ) (buf : List ℕ) (w : FileWatcher O)
      → length buf ≤ m
      → length buf ≤ n
      → event_loop O apply m buf w ≡ event_loop O apply n buf w
  unfolding event_loop
  event_loop-enough zero n [] w h k = event_loop-nil zero w ∙ sym (event_loop-nil n w)
  event_loop-enough zero n (x ∷ buf) w h k = absurd (omega arith)
  event_loop-enough (suc m) zero [] w h k = event_loop-nil (suc m) w ∙ sym (event_loop-nil zero w)
  event_loop-enough (suc m) zero (x ∷ buf) w h k = absurd (omega arith)
  event_loop-enough (suc m) (suc n) buf w h k = elim (Option-cases (first_event buf)) [
    | inl e ↦ rw (event_loop, e) refl
    | inr (f, e) ↦
        rw (event_loop, e)
          (resume-ext O (event_loop O apply m f.rest) (event_loop O apply n f.rest)
            (handle_frame O apply f.event f.name w)
            λ v.
              event_loop-enough m n f.rest v (omega (arith, first_event-shorter buf f e))
                (omega (arith, first_event-shorter buf f e)))
  ]

  pub for_each_event-none :
      (buf : List ℕ) (w : FileWatcher O)
      → first_event buf ≡ none
      → for_each_event O apply buf w ≡ finished (w, buf)
  unfolding for_each_event event_loop
  for_each_event-none [] w e = event_loop-nil 0 w
  for_each_event-none (x ∷ buf) w e = rw (event_loop, e) refl

  pub for_each_event-some :
      (buf : List ℕ) (f : Frame) (w : FileWatcher O)
      → first_event buf ≡ some f
      → for_each_event O apply buf w
        ≡ resume O (for_each_event O apply f.rest) (handle_frame O apply f.event f.name w)
  unfolding for_each_event event_loop
  for_each_event-some [] f w e = let empty : first_event [] ≡ none = first_event-nil in cc
  for_each_event-some (x ∷ buf) f w e =
      rw (event_loop, e)
        (resume-ext O (event_loop O apply (length buf) f.rest) (for_each_event O apply f.rest)
          (handle_frame O apply f.event f.name w)
          λ v.
            event_loop-enough (length buf) (length f.rest) f.rest v
              (omega (arith, first_event-shorter (x ∷ buf) f e)) (omega arith))

  then_more : List ℕ → Reading O → Ended (Reading O)
  then_more b r = for_each_event O apply (r.1 ++ b) r.0

  resume-then_more :
      (f : FileWatcher O → Ended (Reading O)) (b : List ℕ) (r : Ended (FileWatcher O))
      → (resume O f r >>= then_more b) ≡ resume O (λ w. f w >>= then_more b) r
  unfolding resume
  resume-then_more f b (finished w) = refl
  resume-then_more f b (failed e w) = refl
  resume-then_more f b panicked = refl
  resume-then_more f b out_of_fuel = refl

  append_below :
      (n : ℕ) (a b : List ℕ) (w : FileWatcher O)
      → length a < n
      → for_each_event O apply (a ++ b) w ≡ (for_each_event O apply a w >>= then_more b)
  unfolding then_more
  append_below zero a b w h = absurd (omega arith)
  append_below (suc n) a b w h = elim (Option-cases (first_event a)) [
    | inl e ↦ rw (for_each_event-none a w e) refl
    | inr (f, e) ↦
        for_each_event-some (a ++ b) (record f { rest = f.rest ++ b }) w
          (first_event-append a b f e)
        ∙ resume-ext O (for_each_event O apply (f.rest ++ b))
            (λ v. for_each_event O apply f.rest v >>= then_more b)
            (handle_frame O apply f.event f.name w)
            (λ v. append_below n f.rest b v (omega (arith, first_event-shorter a f e)))
        ∙ sym (
            resume-then_more (for_each_event O apply f.rest) b
              (handle_frame O apply f.event f.name w))
        ∙ ap (λ o. o >>= then_more b) (sym (for_each_event-some a f w e))
  ]

  -- Handling bytes at once, or some of them first and what is left over together with the others,
  -- comes to the same, wherever the bytes are cut.
  pub for_each_event-append :
      (a b : List ℕ) (w : FileWatcher O)
      → for_each_event O apply (a ++ b) w
        ≡ (for_each_event O apply a w >>= λ r. for_each_event O apply (r.1 ++ b) r.0)
  unfolding then_more
  for_each_event-append a b w = append_below (suc (length a)) a b w (omega arith)
