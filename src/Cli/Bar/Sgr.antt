-- ===== src/Cli/Bar/Sgr.antt =====
-- cli/bar.go: the bytes that sgr makes of its codes, and the text of a bar.
use golang_time_tracker.Base.{
  suc, zero, ◌/◌, ◌%◌, ◌==◌, if◌then◌else◌, ℕ, ◌+◌, ◌-◌, ◌≡◌, refl, List, [], ◌∷◌, ◌++◌, arith,
  length, length-append,
}
use golang_time_tracker.Base.Int.{ℤ, pos, add64, quot}
use golang_time_tracker.Base.Text.{Text, codes}
use golang_time_tracker.Base.Decimal.{format_number}
use golang_time_tracker.Cli.Bar.Buffer.{
  Code, reset_all, invert_colors, uninvert_colors, set_fg_color, set_bg_color, Piece, sgr, rune,
}

-- The codes that sgr is called with.
unfoldable pub code_texts : Code → List Text
code_texts reset_all = codes "0" ∷ []
code_texts invert_colors = codes "7" ∷ []
code_texts uninvert_colors = codes "27" ∷ []
code_texts (set_fg_color c) = codes "38;5" ∷ format_number c ∷ []
code_texts (set_bg_color c) = codes "48;5" ∷ format_number c ∷ []

-- The loop that copies the codes, with a semicolon in front of all but the first.
unfoldable pub copy_rest : List Text → Text
copy_rest [] = []
copy_rest (s ∷ ss) = 59 ∷ (s ++ copy_rest ss)

unfoldable pub copy_codes : List Text → Text
copy_codes [] = []
copy_codes (s ∷ ss) = s ++ copy_rest ss

unfoldable pub sgr_bytes : List Text → Text
sgr_bytes ss = 27 ∷ 91 ∷ (copy_codes ss ++ 109 ∷ [])

unfoldable code_length : List Text → ℕ
code_length [] = 0
code_length (s ∷ ss) = length s + code_length ss

-- The length of the slice that sgr makes.
unfoldable sgr_length : List Text → ℕ
sgr_length ss = code_length ss + (length ss - 1) + 3

-- What barBuf's buffer holds: a character stands for its UTF-8.
unfoldable pub bar_text : List Piece → Text
bar_text [] = []
bar_text (sgr c ∷ ps) = sgr_bytes (code_texts c) ++ bar_text ps
bar_text (rune r ∷ ps) = r ∷ bar_text ps

length-copy_rest : (ss : List Text) → length (copy_rest ss) ≡ code_length ss + length ss
unfolding copy_rest code_length
length-copy_rest [] = refl
length-copy_rest (s ∷ ss) = omega (arith, length-append s (copy_rest ss), length-copy_rest ss)

-- The codes fill the slice of sgr just to its end, if there is one.
length-sgr_bytes : (s : Text) (ss : List Text) → length (sgr_bytes (s ∷ ss)) ≡ sgr_length (s ∷ ss)
unfolding sgr_bytes sgr_length copy_codes code_length
length-sgr_bytes s ss = omega (
  arith,
  length-append (s ++ copy_rest ss) (109 ∷ []),
  length-append s (copy_rest ss),
  length-copy_rest ss,
)

-- eighths and bin, which nothing calls.
unfoldable eighths : ℤ → ℤ
eighths duration = quot (add64 duration (pos 90)) 180

unfoldable bin_loop : ℕ → ℕ → Text → Text
bin_loop zero x result = result
bin_loop (suc n) x result = bin_loop n (x / 2) ((if x % 2 == 1 then 49 else 48) ∷ result)

unfoldable bin : ℕ → Text
unfolding bin_loop
bin x = bin_loop 8 x []
