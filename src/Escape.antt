-- ===== src/Escape.antt =====
-- pkg/escape/escape.go. A bytes.Buffer is the text written to it so far.
pub mod RoundTrip
use golang_time_tracker.Base.{
  ℕ, ◌+◌, Bool, true, false, not, ◌&&◌, ◌||◌, [], ◌∷◌, ◌++◌, ◌==◌, if◌then◌else◌,
}
use golang_time_tracker.Base.Text.{Text}

-- '"' and '\', by their code points.
abbrev pub quote : ℕ
quote = 34

abbrev pub backslash : ℕ
backslash = 92

-- The loop of countSpecialChars, with `result` so far.
count_loop : Text → ℕ → ℕ
count_loop [] result = result
count_loop (c ∷ s) result =
    count_loop s (if (c == backslash) || (c == quote) then result + 1 else result)

pub count_special_chars : Text → ℕ
unfolding count_loop
count_special_chars s = count_loop s 0

-- The loop of Escape, with the buffer so far.
escape_loop : Text → Text → Text
escape_loop [] buf = buf
escape_loop (c ∷ label) buf = escape_loop label (
    if c == quote
    then buf ++ backslash ∷ quote ∷ []
    else if c == backslash
    then buf ++ backslash ∷ backslash ∷ []
    else buf ++ c ∷ [])

unfoldable pub escape : Text → Text
unfolding escape_loop
escape label = escape_loop label []

-- The loop of Unescape, with `escaped` and the buffer so far.
unescape_loop : Text → Bool → Text → Text
unescape_loop [] escaped out = out
unescape_loop (c ∷ rest) escaped out = elim (not escaped && (c == backslash)) [
  | true ↦ unescape_loop rest true out
  | false ↦ unescape_loop rest false (out ++ c ∷ [])
]

unfoldable pub unescape : Text → Text
unfolding unescape_loop
unescape input = unescape_loop input false []
