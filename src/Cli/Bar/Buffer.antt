-- ===== src/Cli/Bar/Buffer.antt =====
-- barBuf of cli/bar.go: the characters of a bar and the commands to the terminal between them.
use golang_time_tracker.Base.{
  ℕ, ◌+◌, ◌-◌, ◌%◌, ◌==◌, ltb, leb, Bool, true, false, ◌&&◌, ◌||◌, not, List, [], ◌∷◌, ◌++◌,
  if◌then◌else◌,
}
use golang_time_tracker.Base.Int.{ℤ, pos, negsuc, ltb_ℤ}

-- The codes of sgr: each constant of the source, and the two that set a color with their color.
pub data Code : Type 0 where
  reset_all invert_colors uninvert_colors : Code
  set_fg_color set_bg_color : ℕ → Code

-- What is written: a command made by sgr, or a character.
pub data Piece : Type 0 where
  sgr : Code → Piece
  rune : ℕ → Piece

-- markColor, barColor, barDarkColor, shortColor and shortDarkColor
abbrev pub mark_color : ℕ
mark_color = 247

abbrev bar_color : ℕ
bar_color = 220

abbrev bar_dark_color : ℕ
bar_dark_color = 178

abbrev short_color : ℕ
short_color = 69

abbrev short_dark_color : ℕ
short_dark_color = 27

-- 0x2588, 0x2502 and 0x2503
abbrev pub full_block : ℕ
full_block = 9608

abbrev light_vertical_line : ℕ
light_vertical_line = 9474

abbrev thick_vertical_line : ℕ
thick_vertical_line = 9475

pub record BarBuf : Type 0 where
  pub buf : List Piece
  pub size : ℕ
  pub inverted : Bool
  pub short : Bool
  pub on_mark : Bool

-- '['
abbrev pub new_bar_buf : BarBuf
new_bar_buf = record {
  buf = rune 91 ∷ [];
  size = 0;
  inverted = false;
  short = false;
  on_mark = false;
}

abbrev pub emit : Piece → BarBuf → BarBuf
emit piece b = record b { buf = b.buf ++ piece ∷ [] }

unfoldable pub write_inverted : ℕ → BarBuf → BarBuf
write_inverted r b =
    emit (rune r)
      (if b.inverted then b else record (emit (sgr invert_colors) b) { inverted = true })

unfoldable pub write_normal : ℕ → BarBuf → BarBuf
write_normal r b =
    emit (rune r)
      (if b.inverted then record (emit (sgr uninvert_colors) b) { inverted = false } else b)

-- ']'
unfoldable pub finish : BarBuf → List Piece
finish b = b.buf ++ sgr reset_all ∷ rune 93 ∷ []

-- The switch of put that writes the i-th block.
unfoldable pub write_block : ℤ → BarBuf → BarBuf
unfolding write_inverted write_normal
write_block (negsuc n) b = write_normal (full_block - (n + 1) - 1) b
write_block (pos i) b =
    if i == 0
    then write_inverted full_block b
    else if i == 1
    then write_normal full_block b
    else if leb i 8
    then write_normal (full_block + i - 1) b
    else if leb i 15
    then write_inverted (full_block + 16 - i) b
    else if leb i 26
    then write_normal light_vertical_line b
    else if leb i 37
    then write_inverted light_vertical_line b
    else if leb i 47
    then write_normal thick_vertical_line b
    else if leb i 57
    then write_inverted thick_vertical_line b
    else b

-- The color of a mark's background, at every 15th character.
unfoldable pub set_mark : Bool → BarBuf → BarBuf
set_mark on_mark b =
    if not b.on_mark && on_mark
    then record (emit (sgr (set_bg_color mark_color)) b) { on_mark = true }
    else if not on_mark && b.on_mark
    then record (emit (sgr reset_all) b) { on_mark = false; inverted = false }
    else b

unfoldable pub set_color : Bool → BarBuf → BarBuf
set_color short b =
    let color =
      if b.on_mark
      then (if short then short_dark_color else bar_dark_color)
      else (if short then short_color else bar_color) in
    record (emit (sgr (set_fg_color color)) b) { short = short }

unfoldable pub put : ℤ → Bool → BarBuf → BarBuf
unfolding write_block set_mark set_color
put i short b =
    let on_mark = ltb 0 b.size && (b.size % 15 == 0) in
    let enable_mark = not b.on_mark && on_mark in
    let disable_mark = not on_mark && b.on_mark in
    let enable_short = ltb_ℤ (pos 0) i && not b.short && short in
    let disable_short = ltb_ℤ (pos 0) i && b.short && not short in
    let marked = set_mark on_mark b in
    let colored =
      if enable_mark || disable_mark || enable_short || disable_short
      then set_color short marked
      else marked in
    let written = write_block i colored in record written { size = written.size + 1 }
