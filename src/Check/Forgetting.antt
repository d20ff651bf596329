-- ===== src/Check/Forgetting.antt =====
-- What Eq of pkg/check/check.go means: two values are the same but for slices that are nil or
-- empty.
mod Forgotten
mod Same
use golang_time_tracker.Base.{
  ℕ, ◌≡◌, ◌↔◌, refl, sym, ap, Bool, true, false, not, ◌&&◌, ◌==◌, [], ◌∷◌, arith, if◌then◌else◌,
  length, Bool-cases, inl, inr,
}
use golang_time_tracker.Base.Text.{Text}
use golang_time_tracker.Check.{
  Verdict, passes, fails, check_panics, Value, Values, invalid, other, string, slice, array,
  pointer, interface, struct, no_values, more, count_values, bytes_eq, other_eq, eq_at, slice_eq,
  struct_eq, eq,
}
use golang_time_tracker.Check.Forgetting.Forgotten.{forget, forget_all, IsTyped, AreTyped, IsOpen}
use golang_time_tracker.Check.Forgetting.Same.{forget-eq_at}

bytes_eq-passes :
    (exported : Bool) (s t : Text) → length s ≡ length t → bytes_eq exported s t ≡ passes → s ≡ t
unfolding bytes_eq
bytes_eq-passes exported [] [] l h = refl
bytes_eq-passes exported [] (d ∷ t) l h = absurd (omega arith)
bytes_eq-passes exported (c ∷ s) [] l h = absurd (omega arith)
bytes_eq-passes exported (c ∷ s) (d ∷ t) l h = ground (arith, bytes_eq-passes exported s t)

module _ (Other : Type 0) (kind_of : Other → ℕ) (deep_equal : Other → Other → Bool)
    (deep_equal_iff : (x y : Other) → (deep_equal x y ≡ true) ↔ (x ≡ y)) where
  abbrev compared : Bool → Value Other → Value Other → Verdict
  compared = eq_at Other kind_of deep_equal

  other_eq-passes :
      (e : Bool) (x y : Other) → other_eq Other kind_of deep_equal e x y ≡ passes → x ≡ y
  unfolding other_eq
  other_eq-passes e x y h = ground (arith, (deep_equal_iff x y).0)

  string_eq :
      (e : Bool) (s t : Text)
      → (if length s == length t then bytes_eq e s t else fails) ≡ passes
      → s ≡ t
  string_eq e s t h = elim (Bool-cases (length s == length t)) [
    | inl l ↦ bytes_eq-passes e s t (ground arith) (rw l at h)
    | inr l ↦ (let p : fails ≡ passes = rw l at h in cc)
  ]

  same_count :
      (xs ys : Values Other) (v : Verdict)
      → (if count_values Other xs == count_values Other ys then v else fails) ≡ passes
      → (count_values Other xs ≡ count_values Other ys) × (v ≡ passes)
  same_count xs ys v h = ground arith

  both :
      (v rest : Verdict)
      → (elim v [ passes ↦ rest | fails ↦ fails | check_panics ↦ check_panics ]) ≡ passes
      → (v ≡ passes) × (rest ≡ passes)
  both passes rest h = (refl, h)
  both fails rest h = cc
  both check_panics rest h = cc

  mutual
    unfolding eq_at count_values forget IsTyped

    eq_at-forget :
        (swapped : Bool) (x y : Value Other)
        → IsTyped Other x y
        → compared swapped x y ≡ passes
        → forget Other x ≡ forget Other y
    eq_at-forget swapped invalid invalid t h = cc
    eq_at-forget true (other e x) (other e' y) t h =
        ap (other true) (other_eq-passes (e && e') x y h)
    eq_at-forget false (other e x) (other e' y) t h =
        ap (other true) (sym (other_eq-passes (e && e') y x h))
    eq_at-forget swapped (string e s) (string e' u) t h =
        ap (string true) (string_eq (e && e') s u h)
    eq_at-forget swapped (slice n xs) (slice n' ys) t h =
        let (n, each) = same_count xs ys (slice_eq Other kind_of deep_equal swapped xs ys) h in
        ap (slice false) (slice_eq-forget swapped xs ys n t each)
    eq_at-forget swapped (array xs) (array ys) t h =
        let (n, each) = same_count xs ys (slice_eq Other kind_of deep_equal swapped xs ys) h in
        ap array (slice_eq-forget swapped xs ys n t each)
    eq_at-forget swapped (pointer x) (pointer y) t h =
        ap pointer (eq_at-forget (not swapped) x y t h)
    eq_at-forget swapped (interface x) (interface y) t h =
        ap interface (eq_at-forget (not swapped) x y t h)
    eq_at-forget swapped (struct xs) (struct ys) t h =
        ap struct (struct_eq-forget swapped xs ys t.0 t.1 h)
    eq_at-forget swapped x y t h = cc

    slice_eq-forget :
        (swapped : Bool) (xs ys : Values Other)
        → count_values Other xs ≡ count_values Other ys
        → AreTyped Other xs ys
        → slice_eq Other kind_of deep_equal swapped xs ys ≡ passes
        → forget_all Other xs ≡ forget_all Other ys
    slice_eq-forget swapped no_values no_values n t h = refl
    slice_eq-forget swapped (more x xs) (more y ys) n t h =
        let (one, others) =
          both (compared swapped x y) (slice_eq Other kind_of deep_equal swapped xs ys) h in
        let first = eq_at-forget swapped x y t.0 one in
        let rest = slice_eq-forget swapped xs ys (ground arith) t.1 others in cc
    slice_eq-forget swapped xs ys n t h = absurd (omega arith)

    struct_eq-forget :
        (swapped : Bool) (xs ys : Values Other)
        → count_values Other xs ≡ count_values Other ys
        → AreTyped Other xs ys
        → struct_eq Other kind_of deep_equal swapped xs ys ≡ passes
        → forget_all Other xs ≡ forget_all Other ys
    struct_eq-forget swapped no_values no_values n t h = refl
    struct_eq-forget swapped (more x xs) (more y ys) n t h =
        let (one, others) =
          both (compared swapped x y) (struct_eq Other kind_of deep_equal swapped xs ys) h in
        let first = eq_at-forget swapped x y t.0 one in
        let rest = struct_eq-forget swapped xs ys (ground arith) t.1 others in cc
    struct_eq-forget swapped xs ys n t h = absurd (omega arith)

  -- Eq passes two values of one type, without nil pointers, nil interfaces and fields with small
  -- letters, exactly if they are the same but for slices that are nil in one and empty in the
  -- other, provided that DeepEqual tells the values of the kinds apart for which Eq calls it.
  eq-forget :
      (actual expected : Value Other)
      → IsTyped Other actual expected
      → IsOpen Other actual
      → IsOpen Other expected
      → (eq Other kind_of deep_equal actual expected ≡ passes)
        ↔ (forget Other actual ≡ forget Other expected)
  unfolding eq
  eq-forget actual expected t p q = (
    eq_at-forget false actual expected t,
    forget-eq_at Other kind_of deep_equal deep_equal_iff false actual expected p q,
  )
