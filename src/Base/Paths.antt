-- ===== src/Base/Paths.antt =====
-- Go's package path: IsAbs, Clean, Base and Join.
use golang_time_tracker.Base.{ℕ, ◌==◌, Bool, false, List, [], ◌∷◌, ◌++◌, if◌then◌else◌}
use golang_time_tracker.Base.Text.{Text, codes, text_eq}

-- '/'
abbrev pub slash : ℕ
slash = 47

abbrev pub is_abs : Text → Bool
is_abs [] = false
is_abs (c ∷ s) = c == slash

-- The elements of a path, which '/' separates; empty ones are left out.
unfoldable elements : Text → List Text
elements [] = []
elements (c ∷ s) =
    let rest = elements s in
    if c == slash then rest else elim s [
      | [] ↦ (c ∷ []) ∷ []
      | d ∷ _ ↦
          if d == slash
          then (c ∷ []) ∷ rest
          else elim rest [ [] ↦ (c ∷ []) ∷ [] | e ∷ es ↦ (c ∷ e) ∷ es ]
    ]

-- The elements kept so far, the last first: "." is nothing, ".." takes back the element before it,
-- and is dropped at the root.
unfoldable resolve : Bool → List Text → List Text → List Text
resolve rooted kept [] = kept
resolve rooted kept (e ∷ es) =
    if text_eq e (codes ".")
    then resolve rooted kept es
    else if text_eq e (codes "..")
    then elim kept [
      | [] ↦ if rooted then resolve rooted [] es else resolve rooted (e ∷ []) es
      | k ∷ ks ↦
          if text_eq k (codes "..") then resolve rooted (e ∷ k ∷ ks) es else resolve rooted ks es
    ]
    else resolve rooted (e ∷ kept) es

-- The elements in their order again, with '/' between them.
unfoldable join_elements : List Text → Text → Text
join_elements [] acc = acc
join_elements (e ∷ []) acc = e ++ acc
join_elements (e ∷ f ∷ es) acc = join_elements (f ∷ es) (slash ∷ e ++ acc)

-- path.Clean
unfoldable pub clean : Text → Text
unfolding elements resolve join_elements
clean path =
    let body = join_elements (resolve (is_abs path) [] (elements path)) [] in
    if is_abs path then slash ∷ body else if text_eq body [] then codes "." else body

-- The last of the elements.
unfoldable last_element : Text → List Text → Text
last_element e [] = e
last_element e (f ∷ es) = last_element f es

-- path.Base
unfoldable pub base : Text → Text
unfolding elements last_element
base [] = codes "."
base (c ∷ s) = last_element (codes "/") (elements (c ∷ s))

-- path.Join of two elements
unfoldable pub path_join : Text → Text → Text
unfolding clean
path_join [] [] = []
path_join [] (c ∷ t) = clean (c ∷ t)
path_join (c ∷ s) t = clean (c ∷ s ++ slash ∷ t)
