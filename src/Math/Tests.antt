-- ===== src/Math/Tests.antt =====
-- Runs of the helpers, and the theorems at inputs that meet their hypotheses.
use libpmemobj_cpp.Common.{ℕ, ◌+◌, ◌*◌, ◌%◌, ◌^◌, ◌≤◌, ◌<◌, ◌≡◌, refl, arith, inr}
use libpmemobj_cpp.Math.{
  align_up, align_down, bit_length, log2, mssb_index, mssb_index64, smear, next_pow_2,
  next_pow_2_u32,
}
use libpmemobj_cpp.Math.Bounds.{align_up_bounds}
use libpmemobj_cpp.Math.PowerOfTwo.{next_pow_2_lem, next_pow_2_overflow}

align_runs : (align_up 65 64 ≡ 128) × (align_up 64 64 ≡ 64) × (align_down 127 64 ≡ 64)
unfolding align_up align_down
align_runs = (refl, refl, refl)

log2_runs : (log2 1 ≡ 0) × (log2 4096 ≡ 12) × (mssb_index64 (2 ^ 63) ≡ 63) × (mssb_index 8 ≡ 3)
unfolding log2 bit_length mssb_index64 mssb_index
log2_runs = (refl, refl, refl, refl)

next_pow_2_runs :
    (next_pow_2 5 ≡ 8) × (next_pow_2 8 ≡ 8) × (next_pow_2 0 ≡ 1) × (next_pow_2_u32 1000 ≡ 1024)
unfolding next_pow_2 next_pow_2_u32 smear
next_pow_2_runs = (refl, refl, refl, refl)

align_up_bounds_example :
    (align_up 65 (2 ^ 6) % 2 ^ 6 ≡ 0)
    × (65 ≤ align_up 65 (2 ^ 6))
    × (align_up 65 (2 ^ 6) < 65 + 2 ^ 6)
align_up_bounds_example = align_up_bounds 6 65 (omega arith) (omega arith)

next_pow_2_lem_example : (m : ℕ) × (next_pow_2 100 ≡ 2 ^ m) × (100 ≤ 2 ^ m) × (2 ^ m < 2 * 100)
next_pow_2_lem_example = next_pow_2_lem 100 (omega arith) (omega arith)

next_pow_2_overflow_example : next_pow_2 (2 ^ 63 + 1) ≡ 1
next_pow_2_overflow_example = next_pow_2_overflow (2 ^ 63 + 1) (omega arith) (inr (omega arith))
