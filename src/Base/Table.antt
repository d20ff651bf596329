-- ===== src/Base/Table.antt =====
-- A Go map with string keys, as an association list. Its order stands for nothing.
use golang_time_tracker.Base.Sorting.{has_text, Distinct}
use golang_time_tracker.Base.{
  ◌≢◌, ◌↔◌, ◌||◌, true, false, ◌≡◌, refl, Option, none, some, List, [], ◌∷◌, map, arith,
  if◌then◌else◌,
}
use golang_time_tracker.Base.Text.{Text, text_eq, text_eq_iff}

module _ {ℓ} {V : Type ℓ} where
  unfoldable pub lookup : Text → List (Text × V) → Option V
  lookup k [] = none
  lookup k ((j, v) ∷ m) = if text_eq j k then some v else lookup k m

  unfoldable pub insert : Text → V → List (Text × V) → List (Text × V)
  insert k v [] = (k, v) ∷ []
  insert k v ((j, w) ∷ m) = if text_eq j k then (k, v) ∷ m else (j, w) ∷ insert k v m

  -- Go's delete(m, k)
  unfoldable pub delete : Text → List (Text × V) → List (Text × V)
  delete k [] = []
  delete k ((j, w) ∷ m) = if text_eq j k then delete k m else (j, w) ∷ delete k m

  abbrev pub keys : List (Text × V) → List Text
  keys = map (λ e. e.0)

  pub lookup-insert :
      (k j : Text) (v : V) (m : List (Text × V))
      → lookup j (insert k v m) ≡ (if text_eq k j then some v else lookup j m)
  unfolding lookup insert
  lookup-insert k j v [] = refl
  lookup-insert k j v ((i, w) ∷ m) =
      ground (arith, text_eq_iff k j, text_eq_iff i k, text_eq_iff i j, lookup-insert k j v m)

  pub lookup-delete :
      (k j : Text) (m : List (Text × V))
      → lookup j (delete k m) ≡ (if text_eq k j then none else lookup j m)
  unfolding lookup delete
  lookup-delete k j [] = ground arith
  lookup-delete k j ((i, w) ∷ m) =
      ground (arith, text_eq_iff k j, text_eq_iff i k, text_eq_iff i j, lookup-delete k j m)

  has_key : (k : Text) (m : List (Text × V)) → lookup k m ≢ none → has_text k (keys m) ≡ true
  unfolding lookup
  has_key k [] h = absurd (h refl)
  has_key k ((j, w) ∷ m) h = ground (arith, has_key k m)

  -- The keys are those that have a value.
  pub has_text-keys :
      (k : Text) (m : List (Text × V)) → (has_text k (keys m) ≡ true) ↔ (lookup k m ≢ none)
  unfolding lookup
  has_text-keys k m = (has_value k m, has_key k m)
    where
      has_value : (k : Text) (m : List (Text × V)) → has_text k (keys m) ≡ true → lookup k m ≢ none
      has_value k [] h = cc
      has_value k ((j, w) ∷ m) h = ground (arith, has_value k m)

  has_text-keys-insert :
      (k j : Text) (v : V) (m : List (Text × V))
      → has_text j (keys (insert k v m)) ≡ text_eq k j || has_text j (keys m)
  unfolding insert
  has_text-keys-insert k j v [] = refl
  has_text-keys-insert k j v ((i, w) ∷ m) =
      ground (arith, text_eq_iff i k, has_text-keys-insert k j v m)

  has_text-keys-delete :
      (k j : Text) (m : List (Text × V))
      → has_text j (keys m) ≡ false
      → has_text j (keys (delete k m)) ≡ false
  unfolding delete
  has_text-keys-delete k j [] h = refl
  has_text-keys-delete k j ((i, w) ∷ m) h = ground (arith, has_text-keys-delete k j m)

  -- A map never holds a key twice.
  pub insert-Distinct :
      (k : Text) (v : V) (m : List (Text × V)) → Distinct (keys m) → Distinct (keys (insert k v m))
  unfolding insert
  insert-Distinct k v [] h = (refl, tt)
  insert-Distinct k v ((i, w) ∷ m) h = ground (
    arith,
    text_eq_iff i k,
    text_eq_iff k i,
    has_text-keys-insert k i v m,
    insert-Distinct k v m h.1,
  )

  pub delete-Distinct :
      (k : Text) (m : List (Text × V)) → Distinct (keys m) → Distinct (keys (delete k m))
  unfolding delete
  delete-Distinct k [] h = tt
  delete-Distinct k ((i, w) ∷ m) h =
      ground (arith, has_text-keys-delete k i m h.0, delete-Distinct k m h.1)
