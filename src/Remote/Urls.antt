-- ===== src/Remote/Urls.antt =====
-- How the handlers read the URLs that client/client.go makes.
use golang_time_tracker.Base.{
  ℕ, suc, ◌==◌, ◌≡◌, refl, ap, ◌∙◌, false, [], ◌∷◌, ◌++◌, All, All_imp, arith, drop,
}
use golang_time_tracker.Base.Int.{ℤ, pos, negsuc}
use golang_time_tracker.Base.Text.{Text, codes}
use golang_time_tracker.Base.Paths.{slash}
use golang_time_tracker.Base.Decimal.{digits, digits-All, format_number, format_int, IsDigit}
use golang_time_tracker.Remote.{
  trim_slash, url, cut, split_on, parameters, read_url, intervals_path,
}

abbrev pub Lacks : ℕ → Text → Type 0
Lacks c s = All (λ d. (d == c) ≡ false) s

cut-append : (c : ℕ) (s t : Text) → Lacks c s → cut c (s ++ c ∷ t) ≡ (s, t)
unfolding cut
cut-append c [] t h = ground arith
cut-append c (d ∷ s) t (h, hs) = rw (cut, h, cut-append c s t hs) refl

cut-none : (c : ℕ) (s : Text) → Lacks c s → cut c s ≡ (s, [])
unfolding cut
cut-none c [] h = refl
cut-none c (d ∷ s) (h, hs) = rw (cut, h, cut-none c s hs) refl

split_on-append : (c : ℕ) (s t : Text) → Lacks c s → split_on c (s ++ c ∷ t) ≡ s ∷ split_on c t
unfolding split_on
split_on-append c [] t h = ground arith
split_on-append c (d ∷ s) t (h, hs) = rw (split_on, h, split_on-append c s t hs) refl

split_on-none : (c : ℕ) (s : Text) → Lacks c s → split_on c s ≡ s ∷ []
unfolding split_on
split_on-none c [] h = refl
split_on-none c (d ∷ s) (h, hs) = rw (split_on, h, split_on-none c s hs) refl

digits-Lacks :
    (c fuel n : ℕ) → ((d : ℕ) → IsDigit d → (d == c) ≡ false) → Lacks c (digits fuel n [])
digits-Lacks c fuel n h =
    All_imp IsDigit (λ d. (d == c) ≡ false) (digits fuel n []) h (digits-All fuel n [] (record {}))

-- In the text of a number is nothing but digits and a minus.
format_int-Lacks :
    (c : ℕ) (z : ℤ)
    → ((d : ℕ) → IsDigit d → (d == c) ≡ false)
    → (45 == c) ≡ false
    → Lacks c (format_int z)
unfolding format_int format_number
format_int-Lacks c (pos n) h k = digits-Lacks c (suc n) n h
format_int-Lacks c (negsuc n) h k = (k, digits-Lacks c (suc (suc n)) (suc n) h)

no_ampersand : (z : ℤ) → Lacks 38 (format_int z)
no_ampersand z = format_int-Lacks 38 z (λ d h. ground (arith, h)) refl

-- The host is passed over.
read_url_host :
    (address path : Text)
    → Lacks slash address
    → cut slash (drop 7 (url address path)) ≡ (address, trim_slash path)
unfolding url
read_url_host address path h = cut-append slash address (trim_slash path) h

read_url-url :
    (address path : Text)
    → Lacks slash address
    → read_url (url address path) ≡ (
      slash ∷ (cut 63 (trim_slash path)).0,
      parameters (split_on 38 (cut 63 (trim_slash path)).1),
    )
unfolding read_url
read_url-url address path h = rw (read_url_host address path h) refl

-- The handler of /intervals is given the two numbers that the client prints.
pub read_url-intervals_path :
    (address : Text) (start end : ℤ)
    → Lacks slash address
    → read_url (url address (intervals_path start end))
      ≡ (codes "/intervals", (codes "start", format_int start) ∷ (codes "end", format_int end) ∷ [])
unfolding intervals_path trim_slash cut parameters
read_url-intervals_path address start end h =
    let first = codes "start=" ++ format_int start in
    let second = codes "end=" ++ format_int end in
    let parts : split_on 38 (first ++ 38 ∷ second) ≡ first ∷ second ∷ [] =
      split_on-append 38 first second
        (refl, (refl, (refl, (refl, (refl, (refl, no_ampersand start))))))
      ∙ ap (◌∷◌ first) (split_on-none 38 second (refl, (refl, (refl, (refl, no_ampersand end))))) in
    read_url-url address (intervals_path start end) h
    ∙ ap (λ ps. (codes "/intervals", parameters ps)) parts

-- A path without a query.
pub read_url-plain :
    (address path : Text)
    → Lacks slash address
    → Lacks 63 path
    → read_url (url address (slash ∷ path)) ≡ (slash ∷ path, [])
unfolding trim_slash parameters cut split_on
read_url-plain address path h plain =
    read_url-url address (slash ∷ path) h
    ∙ ap (λ r. (slash ∷ r.0, parameters (split_on 38 r.1))) (cut-none 63 path plain)
