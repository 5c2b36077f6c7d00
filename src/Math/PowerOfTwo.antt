-- ===== src/Math/PowerOfTwo.antt =====
-- `next_pow_2` rounds up to a power of two.
use native.Mathlib.Decide.{dec_le}
use native.Mathlib.Nat.{
  pow-le-pow_right, div-lt_iff_lt-mul, le-div_iff_mul-le, mul-sub, mul_comm, div-le_self,
}
use libpmemobj_cpp.Common.{
  ℕ, zero, suc, ◌+◌, ◌-◌, ◌*◌, ◌/◌, ◌%◌, ◌^◌, ◌≤◌, ◌<◌, ◌≡◌, refl, arith, ap, sym, ◌∙◌, bit_or, ◌⊎◌,
  ◌==◌, if◌then◌else◌,
}
use libpmemobj_cpp.Common.Bits.{
  two_pow_pos, two_pow_suc, two_pow_add, bit_or_fields, bit_or-bounds, split_at, pred-mul,
}
use libpmemobj_cpp.Common.Words.{word_mod, add64, sub64}
use libpmemobj_cpp.Math.{smear, log2, next_pow_2}
use libpmemobj_cpp.Math.Bounds.{log2_bounds}

-- The `j` highest of the `n` low bits of `v` are set, or all of them if `n ≤ j`.
record HasTop (n j v : ℕ) : Type 0 where
  below : v < 2 ^ n
  top : 2 ^ n ≤ v + 2 ^ (n - j)

-- How far the run of ones reaches after a step.
reach : (n j : ℕ) → j ≤ n → 2 ^ (n - j) ≤ 2 ^ (n - (j + j)) * 2 ^ j
reach n j h = elim (dec_le j (n - j)) [
  | yes far ↦ omega (arith, two_pow_add (n - (j + j)) j (n - j) (omega arith))
  | no near ↦
      let e : n - (j + j) ≡ 0 = omega arith in
      rw e (omega (arith, pow-le-pow_right {n = 2} (omega arith) {i = n - j} {j = j} (omega arith)))
]

sub-mul-le : (a d b v : ℕ) → a * b ≤ v + d * b → (a - d) * b ≤ v
sub-mul-le a d b v h = omega (arith, mul_comm (a - d) b, mul-sub b a d, mul_comm b a, mul_comm b d)

module _ (n j v : ℕ) (lt : j ≤ n) (h : HasTop n j v) where
  whole : 2 ^ n ≡ 2 ^ (n - j) * 2 ^ j
  whole = two_pow_add (n - j) j n (omega arith)

  shifted_below : v / 2 ^ j < 2 ^ (n - j)
  shifted_below = (div-lt_iff_lt-mul (two_pow_pos j)).1 (omega (arith, whole, h.below))

  shifted_top : 2 ^ (n - j) ≤ v / 2 ^ j + 2 ^ (n - (j + j))
  shifted_top =
      let bound =
        (le-div_iff_mul-le {x = 2 ^ (n - j) - 2 ^ (n - (j + j))} {y = v} (two_pow_pos j)).1
          covered in
      omega arith
    where
      covered : (2 ^ (n - j) - 2 ^ (n - (j + j))) * 2 ^ j ≤ v
      covered =
          sub-mul-le (2 ^ (n - j)) (2 ^ (n - (j + j))) (2 ^ j) v
            (omega (arith, whole, reach n j lt, h.top))

  -- The `j` highest bits are ones.
  top_part : v / 2 ^ (n - j) * 2 ^ (n - j) + 2 ^ (n - j) ≡ 2 ^ n
  top_part = rw (← count) (
      omega (
        arith,
        whole,
        pred-mul (2 ^ j) (2 ^ (n - j)) (two_pow_pos j),
        mul_comm (2 ^ j) (2 ^ (n - j)),
      ))
    where
      whole' : 2 ^ n ≡ 2 ^ j * 2 ^ (n - j)
      whole' = two_pow_add j (n - j) n (omega arith)

      count : 2 ^ j - 1 ≡ v / 2 ^ (n - j)
      count =
          let small =
            (div-lt_iff_lt-mul {x = v} {y = 2 ^ j} (two_pow_pos (n - j))).1
              (omega (arith, whole', h.below)) in
          let large =
            (le-div_iff_mul-le {x = 2 ^ j - 1} {y = v} (two_pow_pos (n - j))).1
              (omega (arith, whole', h.top, pred-mul (2 ^ j) (2 ^ (n - j)) (two_pow_pos j))) in
          omega arith

  smear-split : smear j v ≡ v / 2 ^ (n - j) * 2 ^ (n - j) + bit_or (v % 2 ^ (n - j)) (v / 2 ^ j)
  unfolding smear
  smear-split =
      let (e, small) = split_at (n - j) v in
      ap (λ (t : ℕ). bit_or t (v / 2 ^ j)) (sym e)
      ∙ bit_or_fields (n - j) (v / 2 ^ (n - j)) (v % 2 ^ (n - j)) (v / 2 ^ j) small shifted_below

  smear_within : HasTop n (j + j) (smear j v)
  smear_within =
      let (_, small) = split_at (n - j) v in
      let bounds = bit_or-bounds (n - j) (v % 2 ^ (n - j)) (v / 2 ^ j) small shifted_below in
      omega (arith, smear-split, top_part, shifted_top, bounds)

-- One step doubles the run of ones at the top.
smear-HasTop : (n j v : ℕ) → HasTop n j v → HasTop n (j + j) (smear j v)
unfolding smear
smear-HasTop n j v h = elim (dec_le j n) [
  | yes lt ↦ smear_within n j v lt h
  | no gt ↦
      let bounds =
        bit_or-bounds n v (v / 2 ^ j) h.below
          (omega (arith, h.below, two_pow_pos j, div-le_self v (2 ^ j))) in
      let e : n - j ≡ n - (j + j) = omega arith in
      record { below = bounds.0; top = rw (← e) (omega (arith, h.top, bounds)) }
]

all_ones : (n x : ℕ) → n ≤ 64 → HasTop n 64 x → x ≡ 2 ^ n - 1
all_ones n x h t = let e : n - 64 ≡ 0 = omega arith in omega (arith, t.below, rw e at (t.top))

-- The cascade fills all bits below the highest one.
abbrev cascade : ℕ → ℕ
cascade v = smear 32 (smear 16 (smear 8 (smear 4 (smear 2 (smear 1 v)))))

cascade-fills : (n v : ℕ) → n ≤ 64 → HasTop n 1 v → cascade v ≡ 2 ^ n - 1
cascade-fills n v h t0 =
    let t1 = smear-HasTop n 1 _ t0 in
    let t2 = smear-HasTop n 2 _ t1 in
    let t3 = smear-HasTop n 4 _ t2 in
    let t4 = smear-HasTop n 8 _ t3 in
    let t5 = smear-HasTop n 16 _ t4 in all_ones n _ h (smear-HasTop n 32 _ t5)

highest-HasTop : (v : ℕ) → 0 < v → v < word_mod → HasTop (log2 v + 1) 1 v
highest-HasTop v pos lt =
    let (low, high, _) = log2_bounds v pos lt in
    let e : log2 v + 1 - 1 ≡ log2 v = omega arith in
    record { below = high; top = rw e (ground (arith, two_pow_suc (log2 v))) }

cascade-ones : (v : ℕ) → 0 < v → v < word_mod → cascade v ≡ 2 ^ (log2 v + 1) - 1
cascade-ones v pos lt =
    let (_, _, small) = log2_bounds v pos lt in
    cascade-fills (log2 v + 1) v (omega arith) (highest-HasTop v pos lt)

next_pow_2-of_cascade :
    (v : ℕ)
    → next_pow_2 v
      ≡ add64 (add64 (cascade (sub64 v 1)) 1) (if add64 (cascade (sub64 v 1)) 1 == 0 then 1 else 0)
unfolding next_pow_2
next_pow_2-of_cascade v = refl

cascade-zero : cascade 0 ≡ 0
unfolding smear
cascade-zero = refl

-- For `v` from 1 to 2 ^ 63 the result is the least power of two that is no smaller than `v`.
pub next_pow_2_lem :
    (v : ℕ) → 0 < v → v ≤ 2 ^ 63 → (m : ℕ) × (next_pow_2 v ≡ 2 ^ m) × (v ≤ 2 ^ m) × (2 ^ m < 2 * v)
next_pow_2_lem zero h k = absurd (omega arith)
next_pow_2_lem (suc zero) h k =
    (0, rw next_pow_2-of_cascade (rw cascade-zero), omega arith, omega arith)
next_pow_2_lem (suc (suc v)) h k =
    let (low, high, small) = log2_bounds (suc v) (omega arith) (omega arith) in
    let twice : 2 ^ (log2 (suc v) + 1) ≡ 2 * 2 ^ log2 (suc v) =
      ground (arith, two_pow_suc (log2 (suc v))) in
    let before : sub64 (suc (suc v)) 1 ≡ suc v = omega arith in
    (
      log2 (suc v) + 1,
      rw (next_pow_2-of_cascade, before, cascade-ones (suc v) (omega arith) (omega arith))
          (ground (arith, two_pow_pos (log2 (suc v)))),
      omega arith,
      omega arith,
    )

-- For 0 and for `v` above 2 ^ 63, where the next power of two does not fit, the result is 1.
pub next_pow_2_overflow : (v : ℕ) → v < word_mod → (v ≡ 0) ⊎ (2 ^ 63 < v) → next_pow_2 v ≡ 1
next_pow_2_overflow v h k = rw (next_pow_2-of_cascade, full) refl
  where
    top : (2 ^ 63 ≤ sub64 v 1) × (sub64 v 1 < word_mod)
    top = ground arith

    full : cascade (sub64 v 1) ≡ word_mod - 1
    full =
        cascade-fills 64 (sub64 v 1) (omega arith)
          (record { below = top.1; top = omega (arith, top.0) })
