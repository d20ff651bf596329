-- ===== src/Check/Forgetting/Same.antt =====
-- Eq of pkg/check/check.go passes values that differ in nothing that it tells apart.
use golang_time_tracker.Base.{
  ℕ, suc, ◌≡◌, ◌↔◌, refl, sym, ap, ◌∙◌, Bool, true, false, not, ◌==◌, [], ◌∷◌, arith,
}
use golang_time_tracker.Base.Text.{Text}
use golang_time_tracker.Check.{
  Verdict, passes, Value, Values, invalid, other, string, slice, array, pointer, interface, struct,
  no_values, more, count_values, bytes_eq, other_eq, eq_at, slice_eq, struct_eq,
}
use golang_time_tracker.Check.Forgetting.Forgotten.{forget, forget_all, IsOpen, AreOpen}

module _ (Other : Type 0) (kind_of : Other → ℕ) (deep_equal : Other → Other → Bool)
    (deep_equal_iff : (x y : Other) → (deep_equal x y ≡ true) ↔ (x ≡ y)) where
  abbrev compared : Bool → Value Other → Value Other → Verdict
  compared = eq_at Other kind_of deep_equal

  other_eq_same : (x y : Other) → x ≡ y → other_eq Other kind_of deep_equal true x y ≡ passes
  unfolding other_eq
  other_eq_same x y e = rw e (ground (arith, (deep_equal_iff y y).1 refl))

  bytes_eq_same : (s : Text) → bytes_eq true s s ≡ passes
  unfolding bytes_eq
  bytes_eq_same [] = refl
  bytes_eq_same (c ∷ s) = ground (arith, bytes_eq_same s)

  count_values-forget_all :
      (xs : Values Other) → count_values Other (forget_all Other xs) ≡ count_values Other xs
  unfolding count_values forget
  count_values-forget_all no_values = refl
  count_values-forget_all (more x xs) = ap suc (count_values-forget_all xs)

  count_values_same :
      (xs ys : Values Other)
      → forget_all Other xs ≡ forget_all Other ys
      → (count_values Other xs == count_values Other ys) ≡ true
  count_values_same xs ys e =
      let n : count_values Other xs ≡ count_values Other ys =
        sym (count_values-forget_all xs) ∙ ap (count_values Other) e ∙ count_values-forget_all ys in
      ground arith

  mutual
    unfolding eq_at count_values forget IsOpen

    pub forget-eq_at :
        (swapped : Bool) (x y : Value Other)
        → IsOpen Other x
        → IsOpen Other y
        → forget Other x ≡ forget Other y
        → compared swapped x y ≡ passes
    forget-eq_at swapped invalid invalid p q h = absurd p
    forget-eq_at true (other e x) (other e' y) p q h = rw (p, q) (other_eq_same x y cc)
    forget-eq_at false (other e x) (other e' y) p q h = rw (p, q) (other_eq_same y x cc)
    forget-eq_at swapped (string e s) (string e' u) p q h =
        let same : s ≡ u = cc in rw (p, q, same) (ground (arith, bytes_eq_same u))
    forget-eq_at swapped (slice n xs) (slice n' ys) p q h =
        let same : forget_all Other xs ≡ forget_all Other ys = cc in
        rw (count_values_same xs ys same) (forget_all-slice_eq swapped xs ys p q same)
    forget-eq_at swapped (array xs) (array ys) p q h =
        let same : forget_all Other xs ≡ forget_all Other ys = cc in
        rw (count_values_same xs ys same) (forget_all-slice_eq swapped xs ys p q same)
    forget-eq_at swapped (pointer x) (pointer y) p q h = forget-eq_at (not swapped) x y p q cc
    forget-eq_at swapped (interface x) (interface y) p q h = forget-eq_at (not swapped) x y p q cc
    forget-eq_at swapped (struct xs) (struct ys) p q h = forget_all-struct_eq swapped xs ys p q cc
    forget-eq_at swapped x y p q h = cc

    forget_all-slice_eq :
        (swapped : Bool) (xs ys : Values Other)
        → AreOpen Other xs
        → AreOpen Other ys
        → forget_all Other xs ≡ forget_all Other ys
        → slice_eq Other kind_of deep_equal swapped xs ys ≡ passes
    forget_all-slice_eq swapped no_values no_values p q h = refl
    forget_all-slice_eq swapped (more x xs) (more y ys) p q h =
        rw (forget-eq_at swapped x y p.0 q.0 cc) (forget_all-slice_eq swapped xs ys p.1 q.1 cc)
    forget_all-slice_eq swapped xs ys p q h = cc

    forget_all-struct_eq :
        (swapped : Bool) (xs ys : Values Other)
        → AreOpen Other xs
        → AreOpen Other ys
        → forget_all Other xs ≡ forget_all Other ys
        → struct_eq Other kind_of deep_equal swapped xs ys ≡ passes
    forget_all-struct_eq swapped no_values no_values p q h = refl
    forget_all-struct_eq swapped (more x xs) (more y ys) p q h =
        rw (forget-eq_at swapped x y p.0 q.0 cc) (forget_all-struct_eq swapped xs ys p.1 q.1 cc)
    forget_all-struct_eq swapped xs ys p q h = cc
