-- ===== src/Http/Request.antt =====
-- How watch_daemon/http_api.go reads the bounds of /intervals: strconv.ParseInt and the defaults.
use golang_time_tracker.Base.{
  ℕ, ◌+◌, ◌-◌, ◌*◌, ◌^◌, ◌==◌, leb, ltb, ◌&&◌, List, [], ◌∷◌, Option, none, some, if◌then◌else◌,
}
use golang_time_tracker.Base.Int.{ℤ, pos, negsuc}
use golang_time_tracker.Base.Text.{Text, text_eq}
use golang_time_tracker.Base.Table.{lookup}

-- The value of decimal digits behind those that make `acc`.
unfoldable pub parse_digits : ℕ → Text → Option ℕ
parse_digits acc [] = some acc
parse_digits acc (c ∷ s) =
    let rest = parse_digits (10 * acc + (c - 48)) s in if leb 48 c && leb c 57 then rest else none

unfoldable pub parse_number : Text → Option ℕ
parse_number [] = none
parse_number (c ∷ s) = parse_digits 0 (c ∷ s)

-- The range of an int64.
unfoldable pub positive : Option ℕ → Option ℤ
positive none = none
positive (some n) = if ltb n (2 ^ 63) then some (pos n) else none

unfoldable pub negative : Option ℕ → Option ℤ
negative none = none
negative (some n) = if leb n (2 ^ 63) then some (if n == 0 then pos 0 else negsuc (n - 1)) else none

-- strconv.ParseInt(s, 10, 64)
unfoldable pub parse_int : Text → Option ℤ
unfolding parse_number parse_digits positive negative
parse_int [] = none
parse_int (c ∷ s) =
    if c == 45
    then negative (parse_number s)
    else if c == 43
    then positive (parse_number s)
    else positive (parse_number (c ∷ s))

-- A bound of /intervals: the parameter of the query, or its default if that is empty or missing.
unfoldable pub boundary : Text → ℤ → List (Text × Text) → Option ℤ
unfolding parse_int
boundary param default query = elim (lookup param query) [
  | none ↦ some default
  | some s ↦ if text_eq s [] then some default else parse_int s
]
