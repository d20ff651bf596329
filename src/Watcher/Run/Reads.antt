-- ===== src/Watcher/Run/Reads.antt =====
-- How run of pkg/watcher/watcher.go depends on the reads that its bytes come in, and how many bytes
-- it keeps from one read to the next.
use mathlib.Core.List.{append_assoc, append-nil}
use golang_time_tracker.Base.{
  ℕ, zero, suc, ◌+◌, ◌≤◌, ◌<◌, ◌≡◌, refl, sym, ap, ◌∙◌, Bool, false, List, [], ◌∷◌, ◌++◌, map, none,
  some, arith, length, Option-cases, Bool-cases, ltb, inl, inr,
}
use golang_time_tracker.Watcher.{
  WatchEvent, Os, Ended, finished, failed, panicked, out_of_fuel, ◌>>=◌, FileWatcher,
}
use golang_time_tracker.Watcher.Scan.{apply_watch_event}
use golang_time_tracker.Watcher.Events.{
  Reading, inotify_buf_sz, name_max, uint32_at, frame_of, first_event, for_each_event, resume,
}
use golang_time_tracker.Watcher.Events.Chunks.{
  for_each_event-append, for_each_event-none, for_each_event-some, first_event-shorter,
  first_event_complete,
}
use golang_time_tracker.Watcher.Run.{
  read_bytes, Round, Running, waiting, returned_nil, returned_error, went_panicking, ran_out,
  running_of, consume, run_round, run,
}

-- A round for each read, none of them cancelled.
abbrev pub reads : List (List ℕ) → List Round
reads = map (λ bytes. record { is_done = false; poll = read_bytes bytes })

abbrev pub concat : List (List ℕ) → List ℕ
concat [] = []
concat (c ∷ cs) = c ++ concat cs

module _ (O : Os) (cb : List WatchEvent → WatchEvent → Bool) (fuel : ℕ) where
  run_nil : (r : Running O) → run O cb fuel [] r ≡ r
  unfolding run
  run_nil (waiting r) = refl
  run_nil (returned_nil w) = refl
  run_nil (returned_error e w) = refl
  run_nil went_panicking = refl
  run_nil ran_out = refl

  run_failed :
      (rounds : List Round) (o : Ended (Reading O)) (f : Reading O → Ended (Reading O))
      → ((r : Reading O) → run O cb fuel rounds (waiting r) ≡ running_of O (f r))
      → run O cb fuel rounds (running_of O o) ≡ running_of O (o >>= f)
  unfolding running_of run
  run_failed rounds (finished r) f h = h r
  run_failed [] (failed e (w, b)) f h = refl
  run_failed (r ∷ rounds) (failed e (w, b)) f h = refl
  run_failed [] panicked f h = refl
  run_failed (r ∷ rounds) panicked f h = refl
  run_failed [] out_of_fuel f h = refl
  run_failed (r ∷ rounds) out_of_fuel f h = refl

  -- A run that reads some bytes piece by piece comes to what it comes to when it reads them at
  -- once.
  pub run-consume :
      (chunk : List ℕ) (chunks : List (List ℕ)) (w : FileWatcher O) (left : List ℕ)
      → run O cb fuel (reads (chunk ∷ chunks)) (waiting (w, left))
        ≡ consume O cb fuel (left ++ chunk ++ concat chunks) w
  unfolding run run_round consume
  run-consume chunk [] w left =
      run_nil (consume O cb fuel (left ++ chunk) w)
      ∙ ap (λ b. consume O cb fuel b w) (sym (append-nil (left ++ chunk)))
  run-consume chunk (next ∷ chunks) w left =
      run_failed (reads (next ∷ chunks))
        (for_each_event O (apply_watch_event O cb fuel) (left ++ chunk) w)
        (λ r. for_each_event O (apply_watch_event O cb fuel) (r.1 ++ (next ++ concat chunks)) r.0)
        (λ r.
          run-consume next chunks r.0 r.1
          ∙ ap (λ b. consume O cb fuel b r.0) (append_assoc r.1 next (concat chunks)))
      ∙ ap (running_of O) (
          sym (
            for_each_event-append O (apply_watch_event O cb fuel) (left ++ chunk)
              (next ++ concat chunks) w))

-- Bytes without a whole event are few, where they announce a name that is not too long.
first_event-short :
    (left : List ℕ)
    → first_event left ≡ none
    → uint32_at left 12 ≤ name_max + 1
    → length left < inotify_buf_sz
first_event-short left e len = elim (Bool-cases (ltb (length left) (16 + uint32_at left 12))) [
  | inl lt ↦ ground (arith, lt)
  | inr ge ↦
      let whole : first_event left ≡ some (frame_of left) =
        first_event_complete left (ground (arith, ge)) in
      cc
]

module _ (O : Os) (apply : WatchEvent → FileWatcher O → Ended (FileWatcher O)) where
  resume-finished :
      (next : FileWatcher O → Ended (Reading O)) (o : Ended (FileWatcher O)) (r : Reading O)
      → resume O next o ≡ finished r
      → (w : FileWatcher O) × (next w ≡ finished r)
  unfolding resume
  resume-finished next (finished w) r h = (w, h)
  resume-finished next (failed e w) r h = cc
  resume-finished next panicked r h = cc
  resume-finished next out_of_fuel r h = cc

  left_below :
      (n : ℕ) (buf : List ℕ) (w : FileWatcher O) (r : Reading O)
      → length buf < n
      → for_each_event O apply buf w ≡ finished r
      → first_event r.1 ≡ none
  left_below zero buf w r lt h = absurd (omega arith)
  left_below (suc n) buf w r lt h = elim (Option-cases (first_event buf)) [
    | inl e ↦
        let same : finished (w, buf) ≡ finished r = sym (for_each_event-none O apply buf w e) ∙ h in
        let left : r.1 ≡ buf = cc in rw left e
    | inr (f, e) ↦
        let (v, k) = resume-finished _ _ r (sym (for_each_event-some O apply buf f w e) ∙ h) in
        left_below n f.rest v r (omega (arith, first_event-shorter buf f e)) k
  ]

  -- What is left over holds no event in full, and so, where the length that it announces for the
  -- name is one that a file name can have, it is shorter than inotifyBufSz.
  for_each_event_left :
      (buf left : List ℕ) (w w' : FileWatcher O)
      → for_each_event O apply buf w ≡ finished (w', left)
      → uint32_at left 12 ≤ name_max + 1
      → (first_event left ≡ none) × (length left < inotify_buf_sz)
  for_each_event_left buf left w w' h len =
      let e : first_event left ≡ none =
        left_below (suc (length buf)) buf w (w', left) (omega arith) h in
      (e, first_event-short left e len)
