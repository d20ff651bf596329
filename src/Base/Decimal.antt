-- ===== src/Base/Decimal.antt =====
-- The decimal text of a number, as fmt prints it for %d.
use golang_time_tracker.Base.{
  ℕ, zero, suc, ◌+◌, ◌/◌, ◌%◌, ◌≤◌, ltb, ◌≡◌, refl, Bool-cases, inl, inr, [], ◌∷◌, All, arith,
  if◌then◌else◌,
}
use golang_time_tracker.Base.Int.{ℤ, pos, negsuc}
use golang_time_tracker.Base.Text.{Text}

-- The digits of `n` in front of `rest`. Fuel above `n` is enough: each digit divides it by 10.
unfoldable pub digits : ℕ → ℕ → Text → Text
digits zero n rest = rest
digits (suc fuel) n rest =
    let longer = digits fuel (n / 10) ((48 + n % 10) ∷ rest) in
    if ltb n 10 then (48 + n) ∷ rest else longer

unfoldable pub format_number : ℕ → Text
unfolding digits
format_number n = digits (suc n) n []

unfoldable pub format_int : ℤ → Text
unfolding format_number
format_int (pos n) = format_number n
format_int (negsuc n) = 45 ∷ format_number (suc n)

abbrev pub IsDigit : ℕ → Type 0
IsDigit c = (48 ≤ c) × (c ≤ 57)

pub digits-All : (fuel n : ℕ) (rest : Text) → All IsDigit rest → All IsDigit (digits fuel n rest)
unfolding digits
digits-All zero n rest h = h
digits-All (suc fuel) n rest h = elim (Bool-cases (ltb n 10)) [
  | inl e ↦ rw (digits, e) (ground (arith, e), h)
  | inr e ↦
      rw (digits, e)
        (digits-All fuel (n / 10) ((48 + n % 10) ∷ rest) ((omega arith, omega arith), h))
]

-- The text of a number is not empty and begins with a digit.
pub digits-cons :
    (fuel n : ℕ) (rest : Text)
    → (c : ℕ) × ((s : Text) × (IsDigit c × (digits (suc fuel) n rest ≡ c ∷ s)))
unfolding digits
digits-cons zero n rest = elim (Bool-cases (ltb n 10)) [
  | inl e ↦ rw (digits, e) (48 + n, (rest, (ground (arith, e), refl)))
  | inr e ↦ rw (digits, e) (48 + n % 10, (rest, ((omega arith, omega arith), refl)))
]
digits-cons (suc fuel) n rest = elim (Bool-cases (ltb n 10)) [
  | inl e ↦ rw (digits, e) (48 + n, (rest, (ground (arith, e), refl)))
  | inr e ↦ rw (digits, e) (digits-cons fuel (n / 10) ((48 + n % 10) ∷ rest))
]
