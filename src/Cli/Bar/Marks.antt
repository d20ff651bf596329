-- ===== src/Cli/Bar/Marks.antt =====
-- Where a bar of cli/bar.go has the background of a mark, as the terminal shows it.
use Prim.Native.Nat.{bit_or}
use golang_time_tracker.Base.{
  ℕ, zero, suc, ◌+◌, ◌-◌, ◌/◌, ◌%◌, ◌^◌, ◌==◌, ◌≡◌, refl, ap, ◌∙◌, Bool, true, false, ◌&&◌, ◌||◌,
  not, List, [], ◌∷◌, ◌++◌, map, Option, none, arith, if◌then◌else◌, ltb, Bool-cases, inl, inr,
}
use golang_time_tracker.Base.Int.{ℤ, pos, negsuc, ltb_ℤ, ◌<ℤ◌, ◌+ℤ◌}
use golang_time_tracker.Client.{Interval}
use golang_time_tracker.Cli.Bar.Buffer.{
  sgr, rune, reset_all, full_block, BarBuf, new_bar_buf, write_inverted, write_normal, write_block,
  set_mark, set_color, put, finish,
}
use golang_time_tracker.Cli.Bar.{
  block_mask, best_loop, best_block, put_window, Progress, scan, bar_round, bar_loop, empty_puts,
  bar,
}
use golang_time_tracker.Cli.Bar.Width.{best_loop-lt}
use golang_time_tracker.Cli.Bar.Terminal.{
  Look, plain, look, cells, back, Shows, ShowsMore, cells-append, set_mark-Shows, set_color-Shows,
  write_block-ShowsMore,
}

abbrev pub backgrounds : List (ℕ × Look) → List (Option ℕ)
backgrounds = map (λ c. c.1.background)

abbrev mark_at : ℕ → Bool
mark_at n = ltb 0 n && (n % 15 == 0)

-- The backgrounds of the first `n` characters behind the bracket: that of a mark at each 15th, but
-- not at the first.
unfoldable pub marks : ℕ → List (Option ℕ)
marks zero = []
marks (suc n) = marks n ++ back (mark_at n) ∷ []

backgrounds-append :
    (cs ds : List (ℕ × Look)) → backgrounds (cs ++ ds) ≡ backgrounds cs ++ backgrounds ds
backgrounds-append [] ds = refl
backgrounds-append (c ∷ cs) ds = ap (◌∷◌ c.1.background) (backgrounds-append cs ds)

either_size :
    (c : Bool) (a b : BarBuf) (n : ℕ) → a.size ≡ n → b.size ≡ n → (if c then a else b).size ≡ n
either_size true a b n h k = h
either_size false a b n h k = k

write_normal-size : (r : ℕ) (b : BarBuf) → (write_normal r b).size ≡ b.size
unfolding write_normal
write_normal-size r b = either_size b.inverted _ b b.size refl refl

write_inverted-size : (r : ℕ) (b : BarBuf) → (write_inverted r b).size ≡ b.size
unfolding write_inverted
write_inverted-size r b = either_size b.inverted b _ b.size refl refl

write_block-size : (i : ℤ) (b : BarBuf) → (write_block i b).size ≡ b.size
unfolding write_block
write_block-size (negsuc n) b = write_normal-size (full_block - (n + 1) - 1) b
write_block-size (pos i) b = grind (arith, write_normal-size, write_inverted-size)

set_mark-size : (m : Bool) (b : BarBuf) → (set_mark m b).size ≡ b.size
unfolding set_mark
set_mark-size m b =
    either_size (not b.on_mark && m) _ _ b.size refl
      (either_size (not m && b.on_mark) _ b b.size refl refl)

set_color-size : (c short : Bool) (b : BarBuf) → (if c then set_color short b else b).size ≡ b.size
unfolding set_color
set_color-size c short b = either_size c _ b b.size refl refl

-- A bar of `n` characters so far.
HasMarks : BarBuf → ℕ → Type 0
HasMarks b n =
    (cs : List (ℕ × Look)) × (Shows b cs × ((backgrounds cs ≡ none ∷ marks n) × (b.size ≡ n)))

put-HasMarks :
    (i : ℤ) (short : Bool) (b : BarBuf) (n : ℕ)
    → i <ℤ pos 58
    → HasMarks b n
    → HasMarks (put i short b) (suc n)
unfolding put HasMarks ShowsMore Shows marks
put-HasMarks i short b n lt (cs, (shown, (bgs, size))) =
    let m : Bool = mark_at b.size in
    let c : Bool =
      not b.on_mark && m
      || not m && b.on_mark
      || ltb_ℤ (pos 0) i && not b.short && short
      || ltb_ℤ (pos 0) i && b.short && not short in
    let b₁ : BarBuf = set_mark m b in
    let b₂ : BarBuf = if c then set_color short b₁ else b₁ in
    let (shown₁, on₁) = set_mark-Shows m b cs shown in
    let (shown₂, on₂) = set_color-Shows c short b₁ cs shown₁ in
    let (r, (l, (ground_l, (shown₃, on₃)))) = write_block-ShowsMore i b₂ cs lt shown₂ in
    (
      cs ++ (r, l) ∷ [],
      (
        shown₃,
        (
          backgrounds-append cs ((r, l) ∷ [])
              ∙ ap (λ g. backgrounds cs ++ g ∷ [])
                  (ground_l ∙ ap back (on₂ ∙ on₁ ∙ ap mark_at size))
              ∙ ap (λ g. g ++ back (mark_at n) ∷ []) bgs,
          omega (arith, write_block-size i b₂, set_color-size c short b₁, set_mark-size m b, size),
        ),
      ),
    )

start-HasMarks : HasMarks new_bar_buf 0
unfolding HasMarks Shows look cells marks
start-HasMarks = ((91, plain) ∷ [], ((refl, refl), (refl, refl)))

empty_puts-HasMarks : (n k : ℕ) (b : BarBuf) → HasMarks b k → HasMarks (empty_puts n b) (n + k)
unfolding empty_puts
empty_puts-HasMarks zero k b h = let e : 0 + k ≡ k = omega arith in rw e h
empty_puts-HasMarks (suc n) k b h =
    let e : suc n + k ≡ n + suc k = omega arith in
    rw e (
      empty_puts-HasMarks n (suc k) (put (pos 0) false b)
        (put-HasMarks (pos 0) false b k (omega arith) h))

put_window-HasMarks :
    (window : ℕ) (short : Bool) (b : BarBuf) (n : ℕ)
    → HasMarks b n
    → HasMarks (put_window window short b) (suc n)
unfolding put_window best_block
put_window-HasMarks window short b n h = elim (Bool-cases ((window == 0) || (window == 255))) [
  | inl e ↦ rw (put_window, e) (put-HasMarks (pos (window / 2 ^ 7)) short b n (ground arith) h)
  | inr e ↦
      rw (put_window, e)
        (put-HasMarks (best_loop 0 block_mask window (negsuc 0) 8) short b n
          (best_loop-lt 0 block_mask window (negsuc 0) 8 (omega arith)) h)
]

bar_round-HasMarks :
    (i : ℕ) (p : Progress) → HasMarks p.buf (i / 8) → HasMarks (bar_round i p).buf (suc i / 8)
unfolding bar_round
bar_round-HasMarks i p h =
    let s = scan p.right (p.right +ℤ pos 180) p.rest (pos 0) p.short p.first_intersection in
    let window : ℕ =
      if ltb_ℤ (pos 90) s.duration then bit_or p.window (2 ^ (7 - i % 8)) else p.window in
    elim (Bool-cases (i % 8 == 7)) [
      | inl e ↦
          let next : suc i / 8 ≡ suc (i / 8) = ground (arith, e) in
          rw (bar_round, e, next) (put_window-HasMarks window s.short p.buf (i / 8) h)
      | inr e ↦ let same : suc i / 8 ≡ i / 8 = ground (arith, e) in rw (bar_round, e, same) h
    ]

bar_loop-HasMarks :
    (n i : ℕ) (p : Progress) → HasMarks p.buf (i / 8) → HasMarks (bar_loop n i p).buf ((i + n) / 8)
unfolding bar_loop
bar_loop-HasMarks zero i p h = let e : (i + 0) / 8 ≡ i / 8 = omega arith in rw e h
bar_loop-HasMarks (suc n) i p h =
    let e : (i + suc n) / 8 ≡ (suc i + n) / 8 = omega arith in
    rw e (bar_loop-HasMarks n (suc i) (bar_round i p) (bar_round-HasMarks i p h))

finish-backgrounds :
    (b : BarBuf) (n : ℕ)
    → HasMarks b n
    → backgrounds (cells (finish b) plain) ≡ (none ∷ marks n) ++ none ∷ []
unfolding finish HasMarks Shows cells
finish-backgrounds b n (cs, ((l, s), (bgs, size))) =
    ap backgrounds (cells-append b.buf (sgr reset_all ∷ rune 93 ∷ []) plain)
    ∙ backgrounds-append (cells b.buf plain) ((93, plain) ∷ [])
    ∙ ap (λ g. g ++ none ∷ []) (ap backgrounds s ∙ bgs)

-- For every day and all intervals the terminal shows the brackets of a bar on the usual background,
-- and of the 60 characters between them just the ones with the places 15, 30 and 45 on that of a
-- mark.
pub bar-marks :
    (morning : ℤ) (intervals : List Interval)
    → backgrounds (cells (bar morning intervals) plain) ≡ (none ∷ marks 60) ++ none ∷ []
unfolding bar
bar-marks morning [] =
    finish-backgrounds (empty_puts 60 new_bar_buf) 60
      (empty_puts-HasMarks 60 0 new_bar_buf start-HasMarks)
bar-marks morning (iv ∷ ivs) =
    let start : Progress = record {
      buf = new_bar_buf;
      right = morning;
      rest = iv ∷ ivs;
      window = 0;
      short = false;
      first_intersection = true;
    } in
    finish-backgrounds (bar_loop 480 0 start).buf 60 (bar_loop-HasMarks 480 0 start start-HasMarks)
