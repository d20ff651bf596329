-- ===== src/Watcher/Events/Framing.antt =====
-- The records that inotify(7) describes, and what forEachEvent of pkg/watcher/watcher.go reads of
-- them.
use golang_time_tracker.Base.{
  ℕ, zero, suc, ◌+◌, ◌-◌, ◌*◌, ◌/◌, ◌%◌, ◌^◌, ◌<◌, ◌≡◌, refl, sym, ap, ◌∙◌, false, List, [], ◌∷◌,
  ◌++◌, some, arith, ltb, ◌==◌, All, length, length-append, take-length_append, drop-length_append,
  drop, take, if◌then◌else◌,
}
use golang_time_tracker.Base.Int.{ℤ, pos, negsuc}
use golang_time_tracker.Watcher.Events.{
  byte_at, uint32_at, int32_at, strip_zeros, frame_of, first_event,
}
use golang_time_tracker.Watcher.Events.Chunks.{first_event_complete}

-- The four bytes of a number below 2 ^ 32, the lowest first.
unfoldable pub le_bytes : ℕ → List ℕ
le_bytes n = n % 256 ∷ n / 256 % 256 ∷ n / 65536 % 256 ∷ n / 16777216 % 256 ∷ []

-- The bits of an int32.
unfoldable pub int32_bits : ℤ → ℕ
int32_bits (pos n) = n
int32_bits (negsuc n) = 2 ^ 32 - n - 1

unfoldable pub IsInt32 : ℤ → Type 0
IsInt32 (pos n) = n < 2 ^ 31
IsInt32 (negsuc n) = n < 2 ^ 31

unfoldable pub zeros : ℕ → List ℕ
zeros zero = []
zeros (suc n) = 0 ∷ zeros n

-- A struct inotify_event with its name, which null bytes end and pad.
unfoldable pub encode : ℤ → ℕ → ℕ → List ℕ → ℕ → List ℕ
encode wd mask cookie name padding =
    (le_bytes (int32_bits wd)
      ++ (le_bytes mask ++ (le_bytes cookie ++ le_bytes (length name + padding))))
    ++ (name ++ zeros padding)

le_bytes-sum :
    (n : ℕ)
    → n < 2 ^ 32
    → n % 256 + 256 * (n / 256 % 256) + 65536 * (n / 65536 % 256) + 16777216 * (n / 16777216 % 256)
      ≡ n
le_bytes-sum n h = omega arith

strip_zeros-zeros : (n : ℕ) → strip_zeros (zeros n) ≡ []
unfolding strip_zeros zeros
strip_zeros-zeros zero = refl
strip_zeros-zeros (suc n) = rw (strip_zeros-zeros n) refl

strip_zeros-append :
    (name : List ℕ) (n : ℕ)
    → All (λ b. (b == 0) ≡ false) name
    → strip_zeros (name ++ zeros n) ≡ name
unfolding strip_zeros
strip_zeros-append [] n h = strip_zeros-zeros n
strip_zeros-append (b ∷ []) n (h, hs) = rw (strip_zeros, strip_zeros-zeros n, h) refl
strip_zeros-append (b ∷ c ∷ name) n (h, hs) =
    rw (strip_zeros, strip_zeros-append (c ∷ name) n hs) refl

int32_at-bits :
    (wd : ℤ)
    → IsInt32 wd
    → (if ltb (int32_bits wd) (2 ^ 31)
        then pos (int32_bits wd)
        else negsuc (2 ^ 32 - int32_bits wd - 1))
      ≡ wd
unfolding int32_bits IsInt32
int32_at-bits (pos n) h = ground (arith, h)
int32_at-bits (negsuc n) h =
    let high : ltb (2 ^ 32 - n - 1) (2 ^ 31) ≡ false = ground (arith, h) in
    let back : 2 ^ 32 - (2 ^ 32 - n - 1) - 1 ≡ n = omega (arith, h) in rw (high) (ap negsuc back)

int32_bits-bound : (wd : ℤ) → IsInt32 wd → int32_bits wd < 2 ^ 32
unfolding int32_bits IsInt32
int32_bits-bound (pos n) h = omega (arith, h)
int32_bits-bound (negsuc n) h = omega (arith, h)

length-zeros : (n : ℕ) → length (zeros n) ≡ n
unfolding zeros
length-zeros zero = refl
length-zeros (suc n) = ap suc (length-zeros n)

drop_nil : (n : ℕ) → drop {A = ℕ} n [] ≡ []
drop_nil zero = refl
drop_nil (suc n) = refl

drop_add : (m n : ℕ) (xs : List ℕ) → drop (m + n) xs ≡ drop n (drop m xs)
drop_add zero n xs = ap (λ k. drop k xs) (omega arith)
drop_add (suc m) n [] =
    let next : suc m + n ≡ suc (m + n) = omega arith in ap (λ k. drop k []) next ∙ sym (drop_nil n)
drop_add (suc m) n (x ∷ xs) =
    let next : suc m + n ≡ suc (m + n) = omega arith in
    ap (λ k. drop k (x ∷ xs)) next ∙ drop_add m n xs

module _ (wd : ℤ) (mask cookie : ℕ) (name : List ℕ) (padding : ℕ) (rest : List ℕ) where
  bytes : List ℕ
  bytes = encode wd mask cookie name padding ++ rest

  length_field : length name + padding < 2 ^ 32 → uint32_at bytes 12 ≡ length name + padding
  unfolding bytes encode le_bytes uint32_at byte_at
  length_field h = le_bytes-sum (length name + padding) h

  mask_field : mask < 2 ^ 32 → uint32_at bytes 4 ≡ mask
  unfolding bytes encode le_bytes uint32_at byte_at
  mask_field h = le_bytes-sum mask h

  wd_field : IsInt32 wd → int32_at bytes 0 ≡ wd
  unfolding bytes encode le_bytes int32_at uint32_at byte_at
  wd_field h = rw (le_bytes-sum (int32_bits wd) (int32_bits-bound wd h)) (int32_at-bits wd h)

  payload : drop 16 bytes ≡ (name ++ zeros padding) ++ rest
  unfolding bytes encode le_bytes
  payload = refl

  payload_length : length (name ++ zeros padding) ≡ length name + padding
  payload_length =
      length-append name (zeros padding) ∙ ap (◌+◌ (length name)) (length-zeros padding)

  rest_bytes : drop (16 + (length name + padding)) bytes ≡ rest
  unfolding bytes encode le_bytes
  rest_bytes =
      drop_add 16 (length name + padding) bytes
      ∙ ap (λ n. drop n ((name ++ zeros padding) ++ rest)) (sym payload_length)
      ∙ drop-length_append (name ++ zeros padding) rest

  name_bytes :
      All (λ b. (b == 0) ≡ false) name
      → strip_zeros (take (length name + padding) (drop 16 bytes)) ≡ name
  unfolding bytes encode le_bytes
  name_bytes h =
      ap (λ n. strip_zeros (take n ((name ++ zeros padding) ++ rest))) (sym payload_length)
      ∙ ap strip_zeros (take-length_append (name ++ zeros padding) rest)
      ∙ strip_zeros-append name padding h

  length-bytes : length bytes ≡ 16 + (length name + padding + length rest)
  unfolding bytes encode le_bytes
  length-bytes =
      let sum : length ((name ++ zeros padding) ++ rest) ≡ length name + padding + length rest =
        length-append (name ++ zeros padding) rest ∙ ap (λ n. n + length rest) payload_length in
      omega arith

  -- forEachEvent reads of a record just the descriptor, the mask and the name that have been
  -- written, and goes on with the byte behind the padding, if the numbers fit into their fields and
  -- no byte of the name is null.
  pub first_event-encode :
      IsInt32 wd
      → mask < 2 ^ 32
      → length name + padding < 2 ^ 32
      → All (λ b. (b == 0) ≡ false) name
      → first_event (encode wd mask cookie name padding ++ rest)
        ≡ some (record {
          event = record { wd = wd; mask = mask; len = length name + padding };
          name = name;
          rest = rest;
        })
  unfolding bytes frame_of
  first_event-encode fits small short nonzero =
      let len : uint32_at bytes 12 ≡ length name + padding = length_field short in
      first_event_complete bytes (rw len (omega (arith, length-bytes)))
      ∙ ap some (rw (wd_field fits, mask_field small, len, rest_bytes, name_bytes nonzero) refl)
