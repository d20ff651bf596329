-- ===== src/Escape/RoundTrip.antt =====
-- Escape and Unescape, from pkg/escape/escape.go: what they undo and what they leave alone.
use mathlib.Core.List.{append_assoc, append-nil}
use golang_time_tracker.Base.{
  ℕ, ◌+◌, ◌≡◌, refl, sym, ap, ◌∙◌, false, ◌||◌, [], ◌∷◌, ◌++◌, arith, ◌==◌, if◌then◌else◌, length,
  length-append, ◌≢◌, All,
}
use golang_time_tracker.Base.Text.{Text}
use golang_time_tracker.Escape.{
  quote, backslash, count_loop, count_special_chars, escape_loop, escape, unescape_loop, unescape,
}

-- One round of Escape: what it writes for a character.
abbrev escaped_char : ℕ → Text
escaped_char c = if (c == quote) || (c == backslash) then backslash ∷ c ∷ [] else c ∷ []

-- The escaped text, character by character.
abbrev escaped : Text → Text
escaped [] = []
escaped (c ∷ s) = escaped_char c ++ escaped s

-- One round of Escape appends the escaped character to the buffer.
write_char :
    (c : ℕ) (buf : Text)
    → (if c == quote
        then buf ++ backslash ∷ quote ∷ []
        else if c == backslash
        then buf ++ backslash ∷ backslash ∷ []
        else buf ++ c ∷ [])
      ≡ buf ++ escaped_char c
write_char c buf = ground arith

escape_loop-escaped : (s buf : Text) → escape_loop s buf ≡ buf ++ escaped s
unfolding escape_loop
escape_loop-escaped [] buf = sym (append-nil buf)
escape_loop-escaped (c ∷ s) buf =
    rw (write_char c buf) (
      escape_loop-escaped s (buf ++ escaped_char c) ∙ append_assoc buf (escaped_char c) (escaped s))

unescape_loop-escaped :
    (s rest out : Text)
    → unescape_loop (escaped s ++ rest) false out ≡ unescape_loop rest false (out ++ s)
unfolding unescape_loop
unescape_loop-escaped [] rest out = rw append-nil
unescape_loop-escaped (c ∷ s) rest out =
    ground (arith, unescape_loop-escaped s rest (out ++ c ∷ []), append_assoc out (c ∷ []) s)

escape-escaped : (s : Text) → escape s ≡ escaped s
unfolding escape
escape-escaped s = escape_loop-escaped s []

-- Unescape gives back every text that was escaped.
pub unescape-escape : (s : Text) → unescape (escape s) ≡ s
unfolding unescape
unescape-escape s = rw (escape-escaped s) (
    ap (λ t. unescape_loop t false []) (sym (append-nil (escaped s)))
    ∙ unescape_loop-escaped s [] []
    ∙ (unfold unescape_loop in refl))

-- So two labels or directories are stored alike only if they are the same.
escape-injective : (s t : Text) → escape s ≡ escape t → s ≡ t
escape-injective s t e = sym (unescape-escape s) ∙ ap unescape e ∙ unescape-escape t

-- A text with no special character.
abbrev pub IsPlain : Text → Type 0
IsPlain = All (λ c. (c ≢ quote) × (c ≢ backslash))

-- Escape leaves a plain text as it is.
pub escape_plain : (s : Text) → IsPlain s → escape s ≡ s
escape_plain s h = escape-escaped s ∙ escaped_plain s h
  where
    escaped_plain : (s : Text) → IsPlain s → escaped s ≡ s
    escaped_plain [] h = refl
    escaped_plain (c ∷ s) h = ground (arith, escaped_plain s h.1)

count_loop-escaped : (s : Text) (n : ℕ) → count_loop s n + length s ≡ n + length (escaped s)
unfolding count_loop
count_loop-escaped [] n = omega arith
count_loop-escaped (c ∷ s) n = ground (
  arith,
  count_loop-escaped s n,
  count_loop-escaped s (n + 1),
  length-append (escaped_char c) (escaped s),
)

-- Escape adds as many characters to a text as countSpecialChars counts, by which its buffer grows.
length-escape : (s : Text) → length (escape s) ≡ length s + count_special_chars s
unfolding count_special_chars
length-escape s = rw (escape-escaped s) (omega (arith, count_loop-escaped s 0))
