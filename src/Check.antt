-- ===== src/Check.antt =====
-- pkg/check/check.go: the checks of the tests. A value is what Go's package reflect tells of it.
pub mod Forgetting
use golang_time_tracker.Base.{
  ℕ, suc, Bool, true, false, not, ◌&&◌, ◌==◌, List, [], ◌∷◌, Option, none, some, if◌then◌else◌,
  length,
}
use golang_time_tracker.Base.Text.{Text, has_prefix}
use golang_time_tracker.Watcher.{has_suffix}

-- How a check ends: it returns no error, it returns one, or it panics.
pub data Verdict : Type 0 where
  passes fails check_panics : Verdict

-- False, True and NotNil; `none` is a nil error.
unfoldable false_check : Bool → Verdict
false_check b = if b then fails else passes

unfoldable true_check : Bool → Verdict
true_check b = if not b then fails else passes

-- What Nil tells of its last argument. A nil pointer in an error is not a nil argument.
data Argument : Type 0 where
  nil_argument error_argument other_argument : Argument

unfoldable last_argument : List Argument → Option Argument
last_argument [] = none
last_argument (v ∷ vs) = elim (last_argument vs) [ none ↦ some v | some last ↦ some last ]

-- Without an argument the index is -1.
unfoldable nil_check : List Argument → Verdict
unfolding last_argument
nil_check vals = elim (last_argument vals) [
  | none ↦ check_panics
  | some nil_argument ↦ passes
  | some error_argument ↦ fails
  | some other_argument ↦ fails
]

unfoldable not_nil_check : Bool → Verdict
not_nil_check is_nil = if is_nil then fails else passes

-- The arguments of HasPrefix and HasSuffix: a string, a slice of bytes or something else.
data Affix : Type 0 where
  affix_string affix_bytes : Text → Affix
  affix_other : Affix

unfoldable affix_check : (Text → Text → Bool) → Affix → Affix → Verdict
affix_check has (affix_string s) (affix_string t) = if has s t then passes else fails
affix_check has (affix_bytes s) (affix_bytes t) = if has s t then passes else fails
affix_check has _ _ = fails

unfoldable has_prefix_check : Affix → Affix → Verdict
has_prefix_check = affix_check has_prefix

unfoldable has_suffix_check : Affix → Affix → Verdict
has_suffix_check = affix_check has_suffix

-- T calls t.Fatal at the first error.
unfoldable first_error : List Bool → Bool
first_error [] = false
first_error (is_nil ∷ errs) = if not is_nil then true else first_error errs

-- sliceEq on two strings of one length, from the byte where they are compared next.
unfoldable pub bytes_eq : Bool → Text → Text → Verdict
bytes_eq exported [] t = passes
bytes_eq exported (c ∷ s) [] = check_panics
bytes_eq exported (c ∷ s) (d ∷ t) =
    let rest = bytes_eq exported s t in
    if not exported then check_panics else if c == d then rest else fails

module _ (Other : Type 0) where
  mutual
    -- A value of reflect. `exported` is false of what was read through a field with a small letter,
    -- of which Interface panics; `other` is a value of a kind for which eq calls DeepEqual.
    pub data Value : Type 0 where
      invalid : Value
      other : Bool → Other → Value
      string : Bool → Text → Value
      slice : (is_nil : Bool) → Values → Value
      array : Values → Value
      pointer interface : Value → Value
      struct : Values → Value

    pub data Values : Type 0 where
      no_values : Values
      more : Value → Values → Values

  unfoldable pub count_values : Values → ℕ
  count_values no_values = 0
  count_values (more x xs) = suc (count_values xs)

module _ (Other : Type 0) (kind_of : Other → ℕ) (deep_equal : Other → Other → Bool) where
  -- The default case of eq.
  unfoldable pub other_eq : Bool → Other → Other → Verdict
  other_eq exported expected actual =
      if not (kind_of expected == kind_of actual)
      then fails
      else if not exported
      then check_panics
      else if deep_equal expected actual
      then passes
      else fails

  -- eq, which calls itself with its arguments swapped on what pointers and interfaces hold: of the
  -- two values the first is the actual one, or the second if `swapped` is true. Values of different
  -- kinds are different.
  unfoldable mutual
    unfolding count_values bytes_eq other_eq

    pub eq_at : Bool → Value Other → Value Other → Verdict
    eq_at swapped invalid invalid = check_panics
    eq_at swapped (other e x) (other e' y) =
        if swapped then other_eq (e && e') x y else other_eq (e && e') y x
    eq_at swapped (string e s) (string e' t) =
        if length s == length t then bytes_eq (e && e') s t else fails
    eq_at swapped (slice is_nil xs) (slice is_nil' ys) =
        let each = slice_eq swapped xs ys in
        if count_values Other xs == count_values Other ys then each else fails
    eq_at swapped (array xs) (array ys) =
        let each = slice_eq swapped xs ys in
        if count_values Other xs == count_values Other ys then each else fails
    eq_at swapped (pointer x) (pointer y) = eq_at (not swapped) x y
    eq_at swapped (interface x) (interface y) = eq_at (not swapped) x y
    eq_at swapped (struct xs) (struct ys) = struct_eq swapped xs ys
    eq_at swapped _ _ = fails

    -- The loop of sliceEq on two slices of one length.
    pub slice_eq : Bool → Values Other → Values Other → Verdict
    slice_eq swapped no_values ys = passes
    slice_eq swapped (more x xs) no_values = check_panics
    slice_eq swapped (more x xs) (more y ys) = elim (eq_at swapped x y) [
      | passes ↦ slice_eq swapped xs ys
      | fails ↦ fails
      | check_panics ↦ check_panics
    ]

    -- The loop of structEq over the fields of the expected value.
    pub struct_eq : Bool → Values Other → Values Other → Verdict
    struct_eq swapped no_values no_values = passes
    struct_eq swapped no_values (more y ys) = if swapped then passes else check_panics
    struct_eq swapped (more x xs) no_values = if swapped then check_panics else passes
    struct_eq swapped (more x xs) (more y ys) = elim (eq_at swapped x y) [
      | passes ↦ struct_eq swapped xs ys
      | fails ↦ fails
      | check_panics ↦ check_panics
    ]

  unfoldable pub eq : (actual expected : Value Other) → Verdict
  eq = eq_at false
