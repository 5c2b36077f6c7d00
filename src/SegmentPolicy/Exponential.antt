-- ===== src/SegmentPolicy/Exponential.antt =====
-- `exponential_size_policy`: the first two segments have two elements, and each later one as many
-- as all before it.
use native.Mathlib.Decide.{dec_lt}
use native.Mathlib.Nat.{pow-le-pow_right}
use libpmemobj_cpp.Common.{
  ℕ, zero, suc, ◌+◌, ◌*◌, ◌/◌, ◌%◌, ◌^◌, ◌≤◌, ◌<◌, ◌≡◌, ◌==◌, if◌then◌else◌, refl, arith, bit_and,
  bit_or,
}
use libpmemobj_cpp.Common.Bits.{bit_and_high, bit_or_step, bit_or-zero, two_pow_suc}
use libpmemobj_cpp.Common.Words.{word_mod, sub64, not64}
use libpmemobj_cpp.Math.{log2}
use libpmemobj_cpp.Math.Bounds.{log2_bounds}
use libpmemobj_cpp.SegmentPolicy.{Policy, IsPartition}

unfoldable pub get_segment : ℕ → ℕ
get_segment index = log2 (bit_or index 1)

-- The shift drops the bits from 64 on.
unfoldable pub segment_top : ℕ → ℕ
segment_top segment_index = bit_and (2 ^ segment_index % word_mod) (not64 1)

unfoldable pub segment_size : ℕ → ℕ
segment_size segment_index = if segment_index == 0 then 2 else segment_top segment_index

unfoldable pub index_in_segment : ℕ → ℕ
index_in_segment index = sub64 index (segment_top (get_segment index))

unfoldable pub capacity : ℕ → ℕ
capacity segment_index = if segment_index == 0 then 2 else segment_size segment_index * 2 % word_mod

-- `max_size`, where the argument is PMEMOBJ_MAX_ALLOC_SIZE of libpmemobj over the element's size.
pub max_size : ℕ → ℕ
max_size max_elements = segment_size (get_segment max_elements + 1)

abbrev pub policy : Policy
policy = record {
  get_segment = get_segment;
  segment_top = segment_top;
  segment_size = segment_size;
  index_in_segment = index_in_segment;
  capacity = capacity;
}

segment_top-zero : segment_top 0 ≡ 0
unfolding segment_top
segment_top-zero = refl

segment_top-suc : (k : ℕ) → suc k < 64 → segment_top (suc k) ≡ 2 ^ suc k
unfolding segment_top
segment_top-suc k h = ground (
  arith,
  bit_and_high 63 1 (2 ^ suc k % word_mod),
  two_pow_suc k,
  pow-le-pow_right {n = 2} (omega arith) {i = k} {j = 62} (omega arith),
)

abbrev pub elements : ℕ → ℕ
elements k = 2 ^ (k + 1)

-- Below segment 63 the segments of exponential_size_policy follow one another with no gap, and
-- capacity counts the elements up to the end of a segment, which is a power of two. (At segment 63
-- the capacity wraps to 0.)
pub exponential_adjacent :
    (k : ℕ)
    → k < 63
    → (segment_top k + segment_size k ≡ elements k)
      × (capacity k ≡ elements k)
      × (segment_top (k + 1) ≡ elements k)
unfolding segment_size capacity
exponential_adjacent zero h = ground (arith, segment_top-zero, segment_top-suc 0)
exponential_adjacent (suc k) h = ground (
  arith,
  segment_top-suc k,
  segment_top-suc (suc k),
  two_pow_suc (suc k),
  pow-le-pow_right {n = 2} (omega arith) {i = suc k} {j = 62} (omega arith),
)

odd_above : (i : ℕ) → bit_or i 1 ≡ i / 2 * 2 + 1
odd_above i = omega (arith, bit_or_step i 1, bit_or-zero (i / 2))

abbrev PlacedAt : ℕ → ℕ → Type 0
PlacedAt i k =
    (k < 63)
    × (sub64 i (segment_top k) < segment_size k)
    × (segment_top k + sub64 i (segment_top k) ≡ i)

placed_at :
    (i k : ℕ)
    → i < 2 ^ 63
    → k < 64
    → 2 ^ k ≤ i / 2 * 2 + 1
    → i / 2 * 2 + 1 < 2 ^ (k + 1)
    → PlacedAt i k
unfolding segment_size
placed_at i zero h hk low high = ground (arith, segment_top-zero)
placed_at i (suc k) h hk low high = ground (
  arith,
  segment_top-suc k,
  two_pow_suc k,
  two_pow_suc (suc k),
  pow-le-pow_right {n = 2} (omega arith) {i = 63} {j = suc k},
)

-- An index below 2 ^ 63 is placed in a segment that exists, inside that segment, and its place
-- counts back to the index.
pub exponential_located :
    (i : ℕ)
    → i < 2 ^ 63
    → (get_segment i < 63)
      × (index_in_segment i < segment_size (get_segment i))
      × (segment_top (get_segment i) + index_in_segment i ≡ i)
unfolding get_segment index_in_segment
exponential_located i h =
    let (low, high, small) =
      log2_bounds (bit_or i 1) (omega (arith, odd_above i)) (omega (arith, odd_above i)) in
    placed_at i (log2 (bit_or i 1)) h small (omega (arith, odd_above i))
      (omega (arith, odd_above i))

elements-le-top : (j k : ℕ) → j < k → k < 63 → elements j ≤ segment_top k
elements-le-top j zero h hk = absurd (omega arith)
elements-le-top j (suc k) h hk =
    rw (segment_top-suc k (omega arith))
      (pow-le-pow_right {n = 2} (omega arith) {i = j + 1} {j = suc k} (omega arith))

index_bound : (k i : ℕ) → k < 63 → i < segment_top k + segment_size k → i < 2 ^ 63
index_bound k i h hi = omega (
  arith,
  exponential_adjacent k h,
  pow-le-pow_right {n = 2} (omega arith) {i = k + 1} {j = 63} (omega arith),
)

-- No other segment has the index in its range.
pub exponential_unique :
    (k i : ℕ) → k < 63 → segment_top k ≤ i → i < segment_top k + segment_size k → get_segment i ≡ k
exponential_unique k i h lo hi = elim (dec_lt (get_segment i) k) [
  | yes below ↦ absurd (
      omega (
        arith,
        exponential_adjacent (get_segment i) (omega arith),
        elements-le-top (get_segment i) k below h,
        placed.1,
        placed.2,
      ))
  | no ge ↦ elim (dec_lt k (get_segment i)) [
    | yes above ↦ absurd (
        omega (
          arith,
          exponential_adjacent k h,
          elements-le-top k (get_segment i) above placed.0,
          placed.2,
        ))
    | no le ↦ omega arith
  ]
]
  where
    placed :
        (get_segment i < 63)
        × (index_in_segment i < segment_size (get_segment i))
        × (segment_top (get_segment i) + index_in_segment i ≡ i)
    placed = exponential_located i (index_bound k i h hi)

located_in :
    (k i : ℕ)
    → k < 63
    → segment_top k ≤ i
    → i < segment_top k + segment_size k
    → (get_segment i ≡ k) × (segment_top k + index_in_segment i ≡ i)
located_in k i h lo hi =
    let same = exponential_unique k i h lo hi in
    let bound = index_bound k i h hi in (same, rw same at (exponential_located i bound).2)

pub exponential-IsPartition : IsPartition policy 63
exponential-IsPartition = record {
  starts = segment_top-zero;
  adjacent = λ k h. omega (arith, exponential_adjacent k (omega arith));
  filled = λ k h. omega (arith, exponential_adjacent k h);
  located = λ k i h lo hi. located_in k i h lo hi;
}
