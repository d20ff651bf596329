-- ===== src/Check/Forgetting/Forgotten.antt =====
-- The values that Eq of pkg/check/check.go compares, without what it does not tell apart.
use golang_time_tracker.Base.{◌≡◌, true, false}
use golang_time_tracker.Check.{
  Value, Values, invalid, other, string, slice, array, pointer, interface, struct, no_values, more,
  count_values,
}

module _ (Other : Type 0) where
  -- The value with all its slices made non-nil, and all fields exported.
  unfoldable mutual
    pub forget : Value Other → Value Other
    forget invalid = invalid
    forget (other e x) = other true x
    forget (string e s) = string true s
    forget (slice is_nil xs) = slice false (forget_all xs)
    forget (array xs) = array (forget_all xs)
    forget (pointer x) = pointer (forget x)
    forget (interface x) = interface (forget x)
    forget (struct xs) = struct (forget_all xs)

    pub forget_all : Values Other → Values Other
    forget_all no_values = no_values
    forget_all (more x xs) = more (forget x) (forget_all xs)

  -- Two structs that are compared have as many fields, as those of one type have.
  unfoldable mutual
    unfolding count_values

    pub IsTyped : Value Other → Value Other → Type 0
    IsTyped (slice e xs) (slice e' ys) = AreTyped xs ys
    IsTyped (array xs) (array ys) = AreTyped xs ys
    IsTyped (pointer x) (pointer y) = IsTyped x y
    IsTyped (interface x) (interface y) = IsTyped x y
    IsTyped (struct xs) (struct ys) =
        (count_values Other xs ≡ count_values Other ys) × AreTyped xs ys
    IsTyped _ _ = Unit

    pub AreTyped : Values Other → Values Other → Type 0
    AreTyped (more x xs) (more y ys) = IsTyped x y × AreTyped xs ys
    AreTyped _ _ = Unit

  -- No nil pointer and no nil interface in the value, and no field with a small letter.
  unfoldable mutual
    pub IsOpen : Value Other → Type 0
    IsOpen invalid = ⊥
    IsOpen (other e x) = e ≡ true
    IsOpen (string e s) = e ≡ true
    IsOpen (slice e xs) = AreOpen xs
    IsOpen (array xs) = AreOpen xs
    IsOpen (pointer x) = IsOpen x
    IsOpen (interface x) = IsOpen x
    IsOpen (struct xs) = AreOpen xs

    pub AreOpen : Values Other → Type 0
    AreOpen no_values = Unit
    AreOpen (more x xs) = IsOpen x × AreOpen xs
