-- ===== src/Cli/Bar.antt =====
-- cli/bar.go and pkg/timecmp/timecmp.go: the bar that shows a day's intervals as 60 characters. An
-- instant is a whole number of seconds since the epoch.
pub mod Buffer
pub mod Width
pub mod Terminal
pub mod Marks
pub mod Sgr
pub mod Closest
use Prim.Native.Nat.{bit_and, bit_or, bit_xor}
use golang_time_tracker.Base.{
  ℕ, zero, suc, ◌+◌, ◌-◌, ◌/◌, ◌%◌, ◌^◌, ◌==◌, ltb, Bool, true, false, ◌&&◌, ◌||◌, List, [], ◌∷◌,
  if◌then◌else◌,
}
use golang_time_tracker.Base.Int.{ℤ, pos, negsuc, ◌+ℤ◌, ◌-ℤ◌, ltb_ℤ, eqb_ℤ}
use golang_time_tracker.Client.{Interval}
use golang_time_tracker.Cli.Bar.Buffer.{Piece, BarBuf, new_bar_buf, finish, put}

abbrev pub block_mask : List ℕ
block_mask =
    0 ∷ 255
    -- left boxes
    ∷ 254 ∷ 252 ∷ 248 ∷ 240 ∷ 224 ∷ 192 ∷ 128
    -- right boxes
    ∷ 127 ∷ 63 ∷ 31 ∷ 15 ∷ 7 ∷ 3 ∷ 1
    -- thin vertical line
    ∷ 64 ∷ 32 ∷ 16 ∷ 8 ∷ 4 ∷ 2 ∷ 96 ∷ 48 ∷ 24 ∷ 12 ∷ 6
    -- inverted thin vertical line
    ∷ 191 ∷ 223 ∷ 239 ∷ 247 ∷ 251 ∷ 253 ∷ 159 ∷ 207 ∷ 231 ∷ 243 ∷ 249
    -- thick vertical line
    ∷ 112 ∷ 120 ∷ 124 ∷ 126 ∷ 56 ∷ 60 ∷ 62 ∷ 28 ∷ 30 ∷ 14
    -- inverted thick vertical line
    ∷ 143 ∷ 135 ∷ 131 ∷ 129 ∷ 199 ∷ 195 ∷ 193 ∷ 227 ∷ 225 ∷ 241 ∷ []

-- c = ((c >> p) & m) + (c & m), on a byte
unfoldable fold_bits : ℕ → ℕ → ℕ → ℕ
fold_bits p m c = (bit_and (c / 2 ^ p) m + bit_and c m) % 256

-- The loop's three rounds, with `p` = 1 << 0, 1 << 1 and 1 << 2.
unfoldable pub num_bits : ℕ → ℕ
unfolding fold_bits
num_bits c = fold_bits 4 15 (fold_bits 2 51 (fold_bits 1 85 c))

-- timecmp.Leq, timecmp.Max and timecmp.Min
unfoldable leq : ℤ → ℤ → Bool
leq l r = ltb_ℤ l r || eqb_ℤ l r

unfoldable pub later : ℤ → ℤ → ℤ
later l r = if ltb_ℤ l r then r else l

unfoldable earlier : ℤ → ℤ → ℤ
earlier l r = if ltb_ℤ l r then l else r

-- What the inner loop has found of the intervals in [cl, cr]; `rest` are those from the n-th on.
pub record Scan : Type 0 where
  pub rest : List Interval
  pub duration : ℤ
  pub short : Bool
  pub first_intersection : Bool

-- The overlap of one interval with [cl, cr].
unfoldable add_overlap : ℤ → ℤ → Interval → Scan → Scan
unfolding leq later earlier
add_overlap cl cr iv s =
    if leq cl iv.end
    then record s {
      duration = s.duration +ℤ (earlier cr iv.end -ℤ later cl iv.start);
      short =
          if s.first_intersection && ltb_ℤ (iv.end -ℤ iv.start) (pos 3600) then true else s.short;
      first_intersection = false;
    }
    else s

unfoldable pub scan : ℤ → ℤ → List Interval → ℤ → Bool → Bool → Scan
unfolding add_overlap leq
scan cl cr [] duration short first = record {
  rest = [];
  duration = duration;
  short = short;
  first_intersection = first;
}
scan cl cr (iv ∷ ivs) duration short first =
    let here : Scan = record {
      rest = iv ∷ ivs;
      duration = duration;
      short = short;
      first_intersection = first;
    } in
    let s = add_overlap cl cr iv here in
    let beyond = scan cl cr ivs s.duration s.short s.first_intersection in
    if ltb_ℤ cr iv.start then here else if leq cr iv.end then s else beyond

-- The loop over blockMask, with the index of the mask at hand; `best` is -1 at first.
unfoldable pub best_loop : ℕ → List ℕ → ℕ → ℤ → ℕ → ℤ
best_loop bi [] window best best_count = best
best_loop bi (b ∷ bs) window best best_count =
    let diff = num_bits (bit_xor b window) in
    let closer = ltb diff best_count in
    let best' = if closer then pos bi else best in
    let rest = best_loop (suc bi) bs window best' (if closer then diff else best_count) in
    if diff == 0 then best' else rest

unfoldable pub best_block : ℕ → ℤ
best_block window = best_loop 0 block_mask window (negsuc 0) 8

-- The variables of the loop over the bits.
pub record Progress : Type 0 where
  pub buf : BarBuf
  pub right : ℤ
  pub rest : List Interval
  pub window : ℕ
  pub short : Bool
  pub first_intersection : Bool

-- The window of a finished character.
unfoldable pub put_window : ℕ → Bool → BarBuf → BarBuf
unfolding best_block
put_window window short buf =
    if (window == 0) || (window == 255)
    then put (pos (window / 2 ^ 7)) short buf
    else put (best_block window) short buf

-- The round of the i-th bit.
unfoldable pub bar_round : ℕ → Progress → Progress
unfolding scan put_window
bar_round i p =
    let cl = p.right in
    let cr = cl +ℤ pos 180 in
    let s = scan cl cr p.rest (pos 0) p.short p.first_intersection in
    let window =
      if ltb_ℤ (pos 90) s.duration then bit_or p.window (2 ^ (7 - i % 8)) else p.window in
    if i % 8 == 7
    then record {
      buf = put_window window s.short p.buf;
      right = cr;
      rest = s.rest;
      window = 0;
      short = false;
      first_intersection = true;
    }
    else record {
      buf = p.buf;
      right = cr;
      rest = s.rest;
      window = window;
      short = s.short;
      first_intersection = s.first_intersection;
    }

-- `n` rounds, from the i-th on.
unfoldable pub bar_loop : ℕ → ℕ → Progress → Progress
unfolding bar_round
bar_loop zero i p = p
bar_loop (suc n) i p = bar_loop n (suc i) (bar_round i p)

unfoldable pub empty_puts : ℕ → BarBuf → BarBuf
empty_puts zero buf = buf
empty_puts (suc n) buf = empty_puts n (put (pos 0) false buf)

-- Bar, and emptyBar if there is no interval.
unfoldable pub bar : ℤ → List Interval → List Piece
bar morning [] = finish (empty_puts 60 new_bar_buf)
bar morning (iv ∷ ivs) =
    finish
      (bar_loop 480 0 (record {
        buf = new_bar_buf;
        right = morning;
        rest = iv ∷ ivs;
        window = 0;
        short = false;
        first_intersection = true;
      })).buf
