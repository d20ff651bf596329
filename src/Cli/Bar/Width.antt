-- ===== src/Cli/Bar/Width.antt =====
-- The index of the block that the search of cli/bar.go finds is one of the table.
use Prim.Native.Nat.{bit_xor}
use golang_time_tracker.Base.{
  ℕ, suc, ◌+◌, ◌==◌, List, [], ◌∷◌, arith, ltb, length, Bool-cases, inl, inr,
}
use golang_time_tracker.Base.Int.{ℤ, pos, ◌<ℤ◌}
use golang_time_tracker.Cli.Bar.{num_bits, best_loop}

pub best_loop-lt :
    (bi : ℕ) (bs : List ℕ) (window : ℕ) (best : ℤ) (count : ℕ)
    → best <ℤ pos (bi + length bs)
    → best_loop bi bs window best count <ℤ pos (bi + length bs)
unfolding best_loop
best_loop-lt bi [] window best count h = h
best_loop-lt bi (b ∷ bs) window best count h =
    let diff : ℕ = num_bits (bit_xor b window) in
    let closer = best_loop-lt (suc bi) bs window (pos bi) diff (omega arith) in
    let same = best_loop-lt (suc bi) bs window best count (omega arith) in
    elim (Bool-cases (diff == 0)) [
      | inl e ↦ elim (Bool-cases (ltb diff count)) [
        | inl f ↦ rw (e, f) (omega arith)
        | inr f ↦ rw (e, f) (omega arith)
      ]
      | inr e ↦ elim (Bool-cases (ltb diff count)) [
        | inl f ↦ rw (e, f) (omega (arith, closer))
        | inr f ↦ rw (e, f) (omega (arith, same))
      ]
    ]
