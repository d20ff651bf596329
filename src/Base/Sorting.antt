-- ===== src/Base/Sorting.antt =====
-- sort.Strings, by insertion, and what it gives for strings without a duplicate.
use golang_time_tracker.Base.{
  ◌≡◌, refl, ◌∙◌, Bool, true, false, ◌||◌, List, [], ◌∷◌, arith, All, if◌then◌else◌, Bool-cases,
  inl, inr,
}
use golang_time_tracker.Base.Text.{
  Text, text_eq, text_lt, text_eq_iff, text_lt_total, text_lt_trans,
}

unfoldable pub insert_text : Text → List Text → List Text
insert_text s [] = s ∷ []
insert_text s (t ∷ ts) = if text_lt t s then t ∷ insert_text s ts else s ∷ t ∷ ts

unfoldable pub sort_texts : List Text → List Text
unfolding insert_text
sort_texts [] = []
sort_texts (s ∷ ss) = insert_text s (sort_texts ss)

abbrev pub has_text : Text → List Text → Bool
has_text k [] = false
has_text k (t ∷ ts) = text_eq t k || has_text k ts

-- Strictly ascending.
abbrev pub Sorted : List Text → Type 0
Sorted [] = Unit {0}
Sorted (e ∷ es) = All (λ f. text_lt e f ≡ true) es × Sorted es

abbrev pub Distinct : List Text → Type 0
Distinct [] = Unit {0}
Distinct (e ∷ es) = (has_text e es ≡ false) × Distinct es

All-insert_text {κ} :
    (P : Text → Type κ) (s : Text) (ts : List Text) → P s → All P ts → All P (insert_text s ts)
unfolding insert_text
All-insert_text P s [] h hs = (h, tt)
All-insert_text P s (t ∷ ts) h hs = elim (Bool-cases (text_lt t s)) [
  | inl e ↦ rw e (hs.0, All-insert_text P s ts h hs.1)
  | inr e ↦ rw e (h, hs)
]

pub All-sort_texts {κ} : (P : Text → Type κ) (ss : List Text) → All P ss → All P (sort_texts ss)
unfolding sort_texts
All-sort_texts P [] hs = tt
All-sort_texts P (s ∷ ss) hs = All-insert_text P s (sort_texts ss) hs.0 (All-sort_texts P ss hs.1)

has_text-insert_text :
    (k s : Text) (ts : List Text) → has_text k (insert_text s ts) ≡ text_eq s k || has_text k ts
unfolding insert_text
has_text-insert_text k s [] = refl
has_text-insert_text k s (t ∷ ts) = ground (arith, has_text-insert_text k s ts)

pub has_text-sort_texts : (k : Text) (ss : List Text) → has_text k (sort_texts ss) ≡ has_text k ss
unfolding sort_texts
has_text-sort_texts k [] = refl
has_text-sort_texts k (s ∷ ss) =
    ground (arith, has_text-insert_text k s (sort_texts ss), has_text-sort_texts k ss)

All-lt :
    (s t : Text) (ts : List Text)
    → text_lt s t ≡ true
    → All (λ f. text_lt t f ≡ true) ts
    → All (λ f. text_lt s f ≡ true) ts
All-lt s t [] h hs = tt
All-lt s t (u ∷ ts) h hs = (text_lt_trans s t u h hs.0, All-lt s t ts h hs.1)

insert_text-Sorted :
    (s : Text) (ts : List Text) → has_text s ts ≡ false → Sorted ts → Sorted (insert_text s ts)
unfolding insert_text
insert_text-Sorted s [] h so = (tt, tt)
insert_text-Sorted s (t ∷ ts) h so = elim (Bool-cases (text_lt t s)) [
  | inl e ↦ rw e (
    All-insert_text (λ f. text_lt t f ≡ true) s ts e so.0,
    insert_text-Sorted s ts (ground arith) so.1,
  )
  | inr e ↦
      let lt : text_lt s t ≡ true = ground (arith, text_lt_total s t, text_eq_iff t s) in
      rw e ((lt, All-lt s t ts lt so.0), so)
]

-- Distinct strings are sorted strictly.
pub sort_texts-Sorted : (ss : List Text) → Distinct ss → Sorted (sort_texts ss)
unfolding sort_texts
sort_texts-Sorted [] h = tt
sort_texts-Sorted (s ∷ ss) h =
    insert_text-Sorted s (sort_texts ss) (has_text-sort_texts s ss ∙ h.0) (sort_texts-Sorted ss h.1)

-- A string of a list with a property has it.
pub All-has_text {κ} :
    (P : Text → Type κ) (k : Text) (ts : List Text) → All P ts → has_text k ts ≡ true → P k
All-has_text P k [] hs h = cc
All-has_text P k (t ∷ ts) hs h = elim (Bool-cases (text_eq t k)) [
  | inl e ↦ rw (← (text_eq_iff t k).0 e) hs.0
  | inr e ↦ All-has_text P k ts hs.1 (ground arith)
]

pub All_of_has_text {κ} :
    (P : Text → Type κ) (ts : List Text) → ((k : Text) → has_text k ts ≡ true → P k) → All P ts
All_of_has_text P [] h = tt
All_of_has_text P (t ∷ ts) h =
    (h t (ground (arith, text_eq_iff t t)), All_of_has_text P ts (λ k p. h k (ground arith)))
