-- ===== src/Math/Bounds.antt =====
-- What `align_up`, `align_down`, `Log2` and `mssb_index64` return.
use native.Mathlib.Nat.{pow-le-pow_right, mul-mod_left, div-lt_iff_lt-mul}
use libpmemobj_cpp.Common.{
  ℕ, zero, suc, ◌+◌, ◌-◌, ◌*◌, ◌/◌, ◌%◌, ◌^◌, ◌≤◌, ◌<◌, ◌≡◌, refl, arith, bit_and,
}
use libpmemobj_cpp.Common.Bits.{
  two_pow_pos, two_pow_suc, bit_and_high, two_pow_add, pred-mul, split_at,
}
use libpmemobj_cpp.Common.Words.{word_mod, add64, sub64, not64}
use libpmemobj_cpp.Math.{align_up, align_down, bit_length, log2, mssb_index64}

two_pow-lt : (k : ℕ) → k < 64 → 2 ^ k < word_mod
two_pow-lt k h = omega (
  arith,
  two_pow_add (64 - k) k 64 (omega arith),
  pow-le-pow_right {n = 2} (omega arith) {i = k} {j = 63} (omega arith),
)

-- The complement of `align - 1` is the mask of the bits above the alignment.
mask_of_align :
    (k x : ℕ) → k < 64 → x < word_mod → bit_and x (not64 (sub64 (2 ^ k) 1)) ≡ x / 2 ^ k * 2 ^ k
mask_of_align k x h hx =
    rw complement
      (bit_and_high (64 - k) k x ((div-lt_iff_lt-mul (two_pow_pos k)).1 (rw whole at hx)))
  where
    whole : word_mod ≡ 2 ^ (64 - k) * 2 ^ k
    whole = two_pow_add (64 - k) k 64 (omega arith)

    complement : not64 (sub64 (2 ^ k) 1) ≡ (2 ^ (64 - k) - 1) * 2 ^ k
    complement = omega (
      arith,
      whole,
      two_pow_pos k,
      two_pow-lt k h,
      pred-mul (2 ^ (64 - k)) (2 ^ k) (two_pow_pos (64 - k)),
    )

align_down-div :
    (k size : ℕ) → k < 64 → size < word_mod → align_down size (2 ^ k) ≡ size / 2 ^ k * 2 ^ k
unfolding align_down
align_down-div k size h hs = mask_of_align k size h hs

multiple_bounds :
    (k x : ℕ)
    → (x / 2 ^ k * 2 ^ k % 2 ^ k ≡ 0) × (x / 2 ^ k * 2 ^ k ≤ x) × (x < x / 2 ^ k * 2 ^ k + 2 ^ k)
multiple_bounds k x =
    (mul-mod_left (x / 2 ^ k) (2 ^ k), omega (arith, split_at k x), omega (arith, split_at k x))

align_down_bounds :
    (k size : ℕ)
    → k < 64
    → size < word_mod
    → (align_down size (2 ^ k) % 2 ^ k ≡ 0)
      × (align_down size (2 ^ k) ≤ size)
      × (size < align_down size (2 ^ k) + 2 ^ k)
align_down_bounds k size h hs = rw (align_down-div k size h hs) (multiple_bounds k size)

pub align_up_bounds :
    (k size : ℕ)
    → k < 64
    → size + 2 ^ k ≤ word_mod
    → (align_up size (2 ^ k) % 2 ^ k ≡ 0)
      × (size ≤ align_up size (2 ^ k))
      × (align_up size (2 ^ k) < size + 2 ^ k)
unfolding align_up
align_up_bounds k size h hs =
    rw (mask_of_align k (sub64 (add64 size (2 ^ k)) 1) h (omega arith), top)
      (omega (arith, multiple_bounds k (size + 2 ^ k - 1)))
  where
    top : sub64 (add64 size (2 ^ k)) 1 ≡ size + 2 ^ k - 1
    top = omega (arith, two_pow_pos k, two_pow-lt k h)

bit_length-zero : (w : ℕ) → bit_length w 0 ≡ 0
unfolding bit_length
bit_length-zero zero = refl
bit_length-zero (suc w) = refl

bit_length_bounds :
    (w x : ℕ)
    → 0 < x
    → x < 2 ^ w
    → (0 < bit_length w x)
      × (bit_length w x ≤ w)
      × (2 ^ (bit_length w x - 1) ≤ x)
      × (x < 2 ^ bit_length w x)
unfolding bit_length
bit_length_bounds zero x hx hw = absurd (omega arith)
bit_length_bounds (suc w) (suc zero) hx hw = ground (arith, bit_length-zero w)
bit_length_bounds (suc w) (suc (suc x)) hx hw = grind (
  arith,
  bit_length_bounds w (suc (suc x) / 2),
  two_pow_suc w,
  two_pow_suc (bit_length w (suc (suc x) / 2) - 1),
  two_pow_suc (bit_length w (suc (suc x) / 2)),
)
bit_length_bounds (suc w) zero hx hw = absurd (omega arith)

-- For a non-zero word `log2` is the index of the highest set bit.
pub log2_bounds :
    (x : ℕ) → 0 < x → x < word_mod → (2 ^ log2 x ≤ x) × (x < 2 ^ (log2 x + 1)) × (log2 x < 64)
unfolding log2
log2_bounds x hx hw = ground (arith, bit_length_bounds 64 x hx hw, exact)
  where
    exact : (log2 x ≡ bit_length 64 x - 1) × (log2 x + 1 ≡ bit_length 64 x)
    exact = let found = bit_length_bounds 64 x hx hw in (omega arith, omega arith)

pub log2-eq-mssb_index64 : (x : ℕ) → 0 < x → x < word_mod → mssb_index64 x ≡ log2 x
unfolding log2 mssb_index64
log2-eq-mssb_index64 x hx hw = omega (arith, bit_length_bounds 64 x hx hw)
