-- ===== src/Cli/Bar/Closest.antt =====
-- Which block cli/bar.go chooses for the eight bits of a character.
use Prim.Native.Nat.{bit_xor}
use golang_time_tracker.Base.{
  ◌%◌, ◌/◌, ℕ, zero, suc, ◌+◌, ◌≤◌, ◌<◌, ◌==◌, ◌≡◌, refl, ◌⊎◌, Bool, true, ◌&&◌, ◌||◌, List, [],
  ◌∷◌, some, arith, ltb, get_elem?, All, Bool-cases, inl, inr,
}
use golang_time_tracker.Base.Int.{ℤ, pos, negsuc}
use golang_time_tracker.Cli.Bar.{block_mask, num_bits, best_loop, best_block}

-- The distance that the code measures between a block and the window.
abbrev distance : ℕ → ℕ → ℕ
distance window b = num_bits (bit_xor b window)

-- `i` is the index, counted from `bi`, of a mask of `bs` no further away than any of them.
pub record IsClosest (far : ℕ → ℕ) (bi : ℕ) (bs : List ℕ) (i : ℕ) : Type 0 where
  pub block : ℕ
  pub offset : ℕ
  pub from_offset : i ≡ bi + offset
  pub at_offset : get_elem? bs offset ≡ some block
  pub closest : All (λ b. far block ≤ far b) bs

-- What the loop comes to from a best mask found before: that one, and no mask is closer, or a
-- closer one of `bs`.
data Finds (window bi : ℕ) (bs : List ℕ) (best : ℤ) (count : ℕ) (r : ℤ) : Type 0 where
  stays : r ≡ best → All (λ b. count ≤ distance window b) bs → Finds window bi bs best count r
  finds :
      (i : ℕ)
      → r ≡ pos i
      → (v : IsClosest (distance window) bi bs i) → distance window v.block < count
      → Finds window bi bs best count r

zero_closest : (window : ℕ) (bs : List ℕ) (d : ℕ) → d ≡ 0 → All (λ b. d ≤ distance window b) bs
zero_closest window [] d e = tt
zero_closest window (b ∷ bs) d e = (omega arith, zero_closest window bs d e)

abbrev further :
    (window bi : ℕ) (b : ℕ) (bs : List ℕ) (i : ℕ) (v : IsClosest (distance window) (suc bi) bs i)
    → distance window v.block ≤ distance window b
    → IsClosest (distance window) bi (b ∷ bs) i
further window bi b bs i v le = record {
  block = v.block;
  offset = suc v.offset;
  from_offset = omega (arith, v.from_offset);
  at_offset = v.at_offset;
  closest = (le, v.closest);
}

closer-Finds :
    (window bi b : ℕ) (bs : List ℕ) (best : ℤ) (count : ℕ) (r : ℤ)
    → distance window b < count
    → Finds window (suc bi) bs (pos bi) (distance window b) r
    → Finds window bi (b ∷ bs) best count r
closer-Finds window bi b bs best count r lt (stays e h) =
    finds bi e
      (record {
        block = b;
        offset = 0;
        from_offset = omega arith;
        at_offset = refl;
        closest = (omega arith, h);
      })
      lt
closer-Finds window bi b bs best count r lt (finds i e v h) =
    finds i e (further window bi b bs i v (omega arith)) (omega arith)

far-Finds :
    (window bi b : ℕ) (bs : List ℕ) (best : ℤ) (count : ℕ) (r : ℤ)
    → count ≤ distance window b
    → Finds window (suc bi) bs best count r
    → Finds window bi (b ∷ bs) best count r
far-Finds window bi b bs best count r le (stays e h) = stays e (le, h)
far-Finds window bi b bs best count r le (finds i e v h) =
    finds i e (further window bi b bs i v (omega arith)) h

best_loop-Finds :
    (bi : ℕ) (bs : List ℕ) (window : ℕ) (best : ℤ) (count : ℕ)
    → 0 < count
    → Finds window bi bs best count (best_loop bi bs window best count)
unfolding best_loop
best_loop-Finds bi [] window best count h = stays refl tt
best_loop-Finds bi (b ∷ bs) window best count h = elim (Bool-cases (distance window b == 0)) [
  | inl e ↦
      let closer : ltb (distance window b) count ≡ true = ground arith in
      rw (e, closer)
        (finds bi refl
          (record {
            block = b;
            offset = 0;
            from_offset = omega arith;
            at_offset = refl;
            closest = (omega arith, zero_closest window bs (distance window b) (ground arith));
          })
          (ground arith))
  | inr e ↦ elim (Bool-cases (ltb (distance window b) count)) [
    | inl closer ↦
        rw (e, closer)
          (closer-Finds window bi b bs best count _ (ground arith)
            (best_loop-Finds (suc bi) bs window (pos bi) (distance window b) (ground arith)))
    | inr far ↦
        rw (e, far)
          (far-Finds window bi b bs best count _ (ground arith)
            (best_loop-Finds (suc bi) bs window best count h))
  ]
]

-- A test on all numbers below a bound.
unfoldable all_below : ℕ → (ℕ → Bool) → Bool
all_below zero p = true
all_below (suc n) p = p n && all_below n p

all_below_lem : (n : ℕ) (p : ℕ → Bool) → all_below n p ≡ true → (i : ℕ) → i < n → p i ≡ true
unfolding all_below
all_below_lem zero p h i lt = absurd (omega arith)
all_below_lem (suc n) p h i lt = elim (Bool-cases (i == n)) [
  | inl e ↦ let same : i ≡ n = ground arith in rw same (ground arith)
  | inr e ↦ all_below_lem n p (ground arith) i (ground arith)
]

-- The ones among the lowest `n` bits.
unfoldable pub ones : ℕ → ℕ → ℕ
ones zero c = 0
ones (suc n) c = c % 2 + ones n (c / 2)

abbrev is_near : ℕ → Bool
is_near w = ltb (distance w 0) 8 || ltb (distance w 255) 8

all_near : (w : ℕ) → w < 256 → is_near w ≡ true
unfolding all_below num_bits
all_near = all_below_lem 256 is_near refl

near_empty_or_full :
    (window : ℕ) → window < 256 → ((distance window 0 < 8) ⊎ (distance window 255 < 8))
near_empty_or_full window lt = elim (Bool-cases (ltb (distance window 0) 8)) [
  | inl e ↦ inl (ground arith)
  | inr e ↦ let near : is_near window ≡ true = all_near window lt in inr (ground arith)
]

-- The bits in which a block differs from the window: the ones of their exclusive or.
abbrev pub differing : ℕ → ℕ → ℕ
differing window b = ones 8 (bit_xor b window)

-- Whether numBits counts them rightly for the blocks of `bs`.
unfoldable all_counted : ℕ → List ℕ → Bool
all_counted window [] = true
all_counted window (b ∷ bs) = (distance window b == differing window b) && all_counted window bs

all_counted_lem :
    (window : ℕ) (bs : List ℕ)
    → all_counted window bs ≡ true
    → All (λ b. distance window b ≡ differing window b) bs
unfolding all_counted
all_counted_lem window [] h = tt
all_counted_lem window (b ∷ bs) h = (ground arith, all_counted_lem window bs (ground arith))

all_blocks_counted : (w : ℕ) → w < 256 → all_counted w block_mask ≡ true
unfolding all_below all_counted num_bits ones
all_blocks_counted = all_below_lem 256 (λ w. all_counted w block_mask) refl

All-at : (P : ℕ → Type 0) (bs : List ℕ) (n b : ℕ) → All P bs → get_elem? bs n ≡ some b → P b
All-at P [] n b h e = cc
All-at P (c ∷ bs) zero b h e = let same : c ≡ b = cc in rw (← same) h.0
All-at P (c ∷ bs) (suc n) b h e = All-at P bs n b h.1 e

-- Another measure that is the same on all of `bs`.
recounted :
    (far farther : ℕ → ℕ) (bi : ℕ) (bs : List ℕ) (i : ℕ)
    → All (λ b. far b ≡ farther b) bs
    → IsClosest far bi bs i
    → IsClosest farther bi bs i
recounted far farther bi bs i same v = record {
  block = v.block;
  offset = v.offset;
  from_offset = v.from_offset;
  at_offset = v.at_offset;
  closest = each bs same v.closest;
}
  where
    at_block : far v.block ≡ farther v.block
    at_block = All-at (λ b. far b ≡ farther b) bs v.offset v.block same v.at_offset

    each :
        (cs : List ℕ)
        → All (λ b. far b ≡ farther b) cs
        → All (λ b. far v.block ≤ far b) cs
        → All (λ b. farther v.block ≤ farther b) cs
    each [] s h = tt
    each (c ∷ cs) s h = (omega (arith, at_block, s.0, h.0), each cs s.1 h.1)

-- For the eight bits of every character, put is called with the index of a block that differs from
-- them in no more bits than any of the blocks.
pub best_block-IsClosest :
    (window : ℕ)
    → window < 256
    → (i : ℕ) × (best_block window ≡ pos i) × IsClosest (differing window) 0 block_mask i
unfolding best_block
best_block-IsClosest window lt =
    elim (best_loop-Finds 0 block_mask window (negsuc 0) 8 (omega arith)) [
      | stays e h ↦
          absurd (elim (near_empty_or_full window lt) [ inl n ↦ omega arith | inr n ↦ omega arith ])
      | finds i e v h ↦ (
        i,
        e,
        recounted (distance window) (differing window) 0 block_mask i
            (all_counted_lem window block_mask (all_blocks_counted window lt)) v,
      )
    ]
