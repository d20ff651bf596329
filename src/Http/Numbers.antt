-- ===== src/Http/Numbers.antt =====
-- The bounds of /intervals as they are printed for the query and read back from it.
use golang_time_tracker.Base.{
  ℕ, zero, suc, ◌+◌, ◌-◌, ◌*◌, ◌/◌, ◌%◌, ◌^◌, ◌<◌, ltb, leb, ◌==◌, ◌≡◌, refl, ◌∙◌, sym, ap,
  Bool-cases, inl, inr, true, false, [], ◌∷◌, some, arith,
}
use golang_time_tracker.Base.Int.{ℤ, pos, negsuc}
use golang_time_tracker.Base.Text.{Text}
use golang_time_tracker.Base.Decimal.{digits, digits-cons, format_number, format_int, IsDigit}
use golang_time_tracker.Http.Request.{parse_digits, parse_number, positive, negative, parse_int}

parse_digit :
    (acc d : ℕ) (rest : Text)
    → d < 10
    → parse_digits acc ((48 + d) ∷ rest) ≡ parse_digits (10 * acc + d) rest
unfolding parse_digits
parse_digit acc d rest h =
    let back : 48 + d - 48 ≡ d = omega arith in
    let low : leb 48 (48 + d) ≡ true = ground arith in
    let high : leb (48 + d) 57 ≡ true = ground (arith, h) in rw (back, low, high) refl

parse_digits-digits :
    (fuel n : ℕ) (rest : Text)
    → n < fuel
    → parse_digits 0 (digits fuel n rest) ≡ parse_digits n rest
unfolding digits
parse_digits-digits zero n rest h = absurd (omega arith)
parse_digits-digits (suc fuel) n rest h = elim (Bool-cases (ltb n 10)) [
  | inl e ↦
      rw (digits, e)
        (parse_digit 0 n rest (ground (arith, e)) ∙ ap (λ k. parse_digits k rest) (omega arith))
  | inr e ↦
      rw (digits, e)
        (parse_digits-digits fuel (n / 10) ((48 + n % 10) ∷ rest) (ground (arith, e))
          ∙ parse_digit (n / 10) (n % 10) rest (omega arith)
          ∙ ap (λ k. parse_digits k rest) (omega arith))
]

parse_number-cons : (c : ℕ) (s : Text) → parse_number (c ∷ s) ≡ parse_digits 0 (c ∷ s)
unfolding parse_number
parse_number-cons c s = refl

parse_number-format_number : (n : ℕ) → parse_number (format_number n) ≡ some n
unfolding parse_digits format_number
parse_number-format_number n =
    let (c, (s, (digit, e))) = digits-cons n n [] in
    ap parse_number e
    ∙ parse_number-cons c s
    ∙ ap (parse_digits 0) (sym e)
    ∙ parse_digits-digits (suc n) n [] (omega arith)

unfoldable pub IsInt64 : ℤ → Type 0
IsInt64 (pos n) = n < 2 ^ 63
IsInt64 (negsuc n) = n < 2 ^ 63

parse_int-digit :
    (c : ℕ) (s : Text) → IsDigit c → parse_int (c ∷ s) ≡ positive (parse_number (c ∷ s))
unfolding parse_int
parse_int-digit c s h =
    let minus : (c == 45) ≡ false = ground (arith, h) in
    let plus : (c == 43) ≡ false = ground (arith, h) in rw (minus, plus) refl

parse_int-minus : (s : Text) → parse_int (45 ∷ s) ≡ negative (parse_number s)
unfolding parse_int
parse_int-minus s = refl

-- ParseInt reads back every int64 that is printed with %d.
pub parse_int-format_int : (z : ℤ) → IsInt64 z → parse_int (format_int z) ≡ some z
unfolding format_int format_number IsInt64 positive negative
parse_int-format_int (pos n) h =
    let (c, (s, (digit, e))) = digits-cons n n [] in
    ap parse_int e
    ∙ parse_int-digit c s digit
    ∙ ap (λ t. positive (parse_number t)) (sym e)
    ∙ ap positive (parse_number-format_number n)
    ∙ ground (arith, h)
parse_int-format_int (negsuc n) h =
    parse_int-minus (format_number (suc n))
    ∙ ap negative (parse_number-format_number (suc n))
    ∙ ground (arith, h)
