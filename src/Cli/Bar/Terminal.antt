-- ===== src/Cli/Bar/Terminal.antt =====
-- What the terminal shows of a bar of cli/bar.go: each character with the state that the commands
-- before it leave, but for its foreground color.
use golang_time_tracker.Base.{
  ℕ, ◌≡◌, refl, sym, ap, ◌∙◌, Bool, true, false, ◌&&◌, not, List, [], ◌∷◌, ◌++◌, Option, none, some,
  arith, if◌then◌else◌,
}
use mathlib.Core.List.{append-nil}
use golang_time_tracker.Base.Int.{ℤ, pos, negsuc, ◌<ℤ◌}
use golang_time_tracker.Cli.Bar.Buffer.{
  Code, reset_all, invert_colors, uninvert_colors, set_fg_color, set_bg_color, Piece, sgr, rune,
  mark_color, BarBuf, emit, write_inverted, write_normal, write_block, set_mark, set_color,
}

pub record Look : Type 0 where
  pub inverted : Bool
  pub background : Option ℕ

abbrev pub plain : Look
plain = record { inverted = false; background = none }

-- The SGR commands, as terminals obey them.
unfoldable obey : Code → Look → Look
obey reset_all l = plain
obey invert_colors l = record l { inverted = true }
obey uninvert_colors l = record l { inverted = false }
obey (set_fg_color c) l = l
obey (set_bg_color c) l = record l { background = some c }

unfoldable pub look : List Piece → Look → Look
unfolding obey
look [] l = l
look (sgr c ∷ ps) l = look ps (obey c l)
look (rune r ∷ ps) l = look ps l

-- The characters, with how they look.
unfoldable pub cells : List Piece → Look → List (ℕ × Look)
unfolding obey
cells [] l = []
cells (sgr c ∷ ps) l = cells ps (obey c l)
cells (rune r ∷ ps) l = (r, l) ∷ cells ps l

look-append : (ps qs : List Piece) (l : Look) → look (ps ++ qs) l ≡ look qs (look ps l)
unfolding look
look-append [] qs l = refl
look-append (sgr c ∷ ps) qs l = look-append ps qs (obey c l)
look-append (rune r ∷ ps) qs l = look-append ps qs l

pub cells-append :
    (ps qs : List Piece) (l : Look) → cells (ps ++ qs) l ≡ cells ps l ++ cells qs (look ps l)
unfolding cells look
cells-append [] qs l = refl
cells-append (sgr c ∷ ps) qs l = cells-append ps qs (obey c l)
cells-append (rune r ∷ ps) qs l = ap (◌∷◌ (r, l)) (cells-append ps qs l)

abbrev pub back : Bool → Option ℕ
back on_mark = if on_mark then some mark_color else none

abbrev look_of : BarBuf → Look
look_of b = record { inverted = b.inverted; background = back b.on_mark }

-- The terminal is in the state that a barBuf keeps, and shows these characters.
unfoldable pub Shows : BarBuf → List (ℕ × Look) → Type 0
Shows b cs = (look b.buf plain ≡ look_of b) × (cells b.buf plain ≡ cs)

-- A command, and a character.
Shows-sgr :
    (c : Code) (b b' : BarBuf) (cs : List (ℕ × Look))
    → Shows b cs
    → b'.buf ≡ b.buf ++ sgr c ∷ []
    → obey c (look_of b) ≡ look_of b'
    → Shows b' cs
unfolding Shows look cells
Shows-sgr c b b' cs (l, s) e o = (
  ap (λ ps. look ps plain) e ∙ look-append b.buf (sgr c ∷ []) plain ∙ ap (obey c) l ∙ o,
  ap (λ ps. cells ps plain) e
      ∙ cells-append b.buf (sgr c ∷ []) plain
      ∙ append-nil (cells b.buf plain)
      ∙ s,
)

Shows-rune :
    (r : ℕ) (b : BarBuf) (cs : List (ℕ × Look))
    → Shows b cs
    → Shows (emit (rune r) b) (cs ++ (r, look_of b) ∷ [])
unfolding Shows look cells
Shows-rune r b cs (l, s) = (
  look-append b.buf (rune r ∷ []) plain ∙ l,
  cells-append b.buf (rune r ∷ []) plain
      ∙ ap (λ ds. ds ++ (r, look b.buf plain) ∷ []) s
      ∙ ap (λ k. cs ++ (r, k) ∷ []) l,
)

-- The colors are inverted, or made normal, where they are not yet.
now_inverted :
    (v : Bool) (b : BarBuf) (cs : List (ℕ × Look))
    → v ≡ b.inverted
    → Shows b cs
    → let b' : BarBuf = if v then b else record (emit (sgr invert_colors) b) { inverted = true } in
      Shows b' cs × (look_of b' ≡ record { inverted = true; background = back b.on_mark })
unfolding obey
now_inverted true b cs e h = (h, ap look_with (sym e))
  where
    look_with : Bool → Look
    look_with v = record { inverted = v; background = back b.on_mark }
now_inverted false b cs e h = (
  Shows-sgr invert_colors b (record (emit (sgr invert_colors) b) { inverted = true }) cs h refl
      refl,
  refl,
)

now_normal :
    (v : Bool) (b : BarBuf) (cs : List (ℕ × Look))
    → v ≡ b.inverted
    → Shows b cs
    → let b' : BarBuf =
        if v then record (emit (sgr uninvert_colors) b) { inverted = false } else b in
      Shows b' cs × (look_of b' ≡ record { inverted = false; background = back b.on_mark })
unfolding obey
now_normal true b cs e h = (
  Shows-sgr uninvert_colors b (record (emit (sgr uninvert_colors) b) { inverted = false }) cs h refl
      refl,
  refl,
)
now_normal false b cs e h = (h, ap look_with (sym e))
  where
    look_with : Bool → Look
    look_with v = record { inverted = v; background = back b.on_mark }

-- A buffer that shows one character more, on the background of a mark or not.
unfoldable pub ShowsMore : BarBuf → List (ℕ × Look) → Bool → Type 0
ShowsMore b cs m =
    (r : ℕ) × ((l : Look) × ((l.background ≡ back m)
        × (Shows b (cs ++ (r, l) ∷ []) × (b.on_mark ≡ m))))

write_inverted-ShowsMore :
    (r : ℕ) (b : BarBuf) (cs : List (ℕ × Look))
    → Shows b cs
    → ShowsMore (write_inverted r b) cs b.on_mark
unfolding write_inverted ShowsMore
write_inverted-ShowsMore r b cs h =
    let b' : BarBuf =
      if b.inverted then b else record (emit (sgr invert_colors) b) { inverted = true } in
    let (shown, same) = now_inverted b.inverted b cs refl h in
    (
      r,
      (
        look_of b',
        (ap (λ (l : Look). l.background) same, (Shows-rune r b' cs shown, kept b.inverted)),
      ),
    )
  where
    kept :
        (v : Bool)
        → (if v then b else record (emit (sgr invert_colors) b) { inverted = true }).on_mark
          ≡ b.on_mark
    kept true = refl
    kept false = refl

write_normal-ShowsMore :
    (r : ℕ) (b : BarBuf) (cs : List (ℕ × Look))
    → Shows b cs
    → ShowsMore (write_normal r b) cs b.on_mark
unfolding write_normal ShowsMore
write_normal-ShowsMore r b cs h =
    let b' : BarBuf =
      if b.inverted then record (emit (sgr uninvert_colors) b) { inverted = false } else b in
    let (shown, same) = now_normal b.inverted b cs refl h in
    (
      r,
      (
        look_of b',
        (ap (λ (l : Look). l.background) same, (Shows-rune r b' cs shown, kept b.inverted)),
      ),
    )
  where
    kept :
        (v : Bool)
        → (if v then record (emit (sgr uninvert_colors) b) { inverted = false } else b).on_mark
          ≡ b.on_mark
    kept true = refl
    kept false = refl

marked :
    (v m : Bool) (b : BarBuf) (cs : List (ℕ × Look))
    → v ≡ b.on_mark
    → Shows b cs
    → let b' : BarBuf =
        if not v && m
        then record (emit (sgr (set_bg_color mark_color)) b) { on_mark = true }
        else if not m && v
        then record (emit (sgr reset_all) b) { on_mark = false; inverted = false }
        else b in
      Shows b' cs × (b'.on_mark ≡ m)
unfolding obey
marked true true b cs e h = (h, sym e)
marked true false b cs e h = (
  Shows-sgr reset_all b (record (emit (sgr reset_all) b) { on_mark = false; inverted = false }) cs h
      refl refl,
  refl,
)
marked false true b cs e h = (
  Shows-sgr (set_bg_color mark_color) b
      (record (emit (sgr (set_bg_color mark_color)) b) { on_mark = true }) cs h refl refl,
  refl,
)
marked false false b cs e h = (h, sym e)

pub set_mark-Shows :
    (m : Bool) (b : BarBuf) (cs : List (ℕ × Look))
    → Shows b cs
    → Shows (set_mark m b) cs × ((set_mark m b).on_mark ≡ m)
unfolding set_mark
set_mark-Shows m b cs h = marked b.on_mark m b cs refl h

pub set_color-Shows :
    (c short : Bool) (b : BarBuf) (cs : List (ℕ × Look))
    → Shows b cs
    → Shows (if c then set_color short b else b) cs
      × ((if c then set_color short b else b).on_mark ≡ b.on_mark)
unfolding set_color obey
set_color-Shows true short b cs h =
    (Shows-sgr (set_fg_color _) b (set_color short b) cs h refl refl, refl)
set_color-Shows false short b cs h = (h, refl)

pub write_block-ShowsMore :
    (i : ℤ) (b : BarBuf) (cs : List (ℕ × Look))
    → i <ℤ pos 58
    → Shows b cs
    → ShowsMore (write_block i b) cs b.on_mark
unfolding write_block
write_block-ShowsMore (negsuc n) b cs lt h = write_normal-ShowsMore _ b cs h
write_block-ShowsMore (pos i) b cs lt h =
    grind (arith, write_normal-ShowsMore, write_inverted-ShowsMore)
