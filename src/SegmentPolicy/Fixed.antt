-- ===== src/SegmentPolicy/Fixed.antt =====
-- `fixed_size_policy`: every segment has `Size` elements.
use native.Mathlib.Nat.{le-div_iff_mul-le, div-lt_iff_lt-mul, div-add-mod'}
use libpmemobj_cpp.Common.{ℕ, ◌+◌, ◌*◌, ◌/◌, ◌%◌, ◌≤◌, ◌<◌, ◌≡◌, ap, arith}
use libpmemobj_cpp.Common.Words.{word_mod, add64}
use libpmemobj_cpp.SegmentPolicy.{Policy, IsPartition}

module _ (size : ℕ) where
  unfoldable pub get_segment : ℕ → ℕ
  get_segment index = index / size

  unfoldable pub segment_top : ℕ → ℕ
  segment_top segment_index = segment_index * size % word_mod

  unfoldable pub segment_size : ℕ → ℕ
  segment_size segment_index = size

  unfoldable pub index_in_segment : ℕ → ℕ
  index_in_segment index = index % size

  unfoldable pub capacity : ℕ → ℕ
  capacity segment_index = add64 segment_index 1 * size % word_mod

  abbrev pub policy : Policy
  policy = record {
    get_segment = get_segment;
    segment_top = segment_top;
    segment_size = segment_size;
    index_in_segment = index_in_segment;
    capacity = capacity;
  }

  fixed_starts : segment_top 0 ≡ 0
  unfolding segment_top
  fixed_starts = omega arith

  module _ (count : ℕ) (some_size : 0 < size) (fits : count * size < word_mod) where
    top_fits : (k : ℕ) → k ≤ count → k * size < word_mod
    top_fits k h = grind arith

    count_fits : count < word_mod
    count_fits = grind arith

    -- The segments follow one another with no gap, and the capacity counts the elements up to the
    -- end of a segment.
    fixed_adjacent :
        (k : ℕ)
        → k < count
        → (segment_top k + segment_size k ≡ (k + 1) * size) × (capacity k ≡ (k + 1) * size)
    unfolding segment_top segment_size capacity
    fixed_adjacent k h =
        let exact : add64 k 1 ≡ k + 1 = omega (arith, count_fits) in
        rw exact (omega (arith, top_fits k (omega arith), top_fits (k + 1) (omega arith)))

    top_shift : (k : ℕ) → k + 1 < count → segment_top (k + 1) ≡ (k + 1) * size
    unfolding segment_top
    top_shift k h = omega (arith, top_fits (k + 1) (omega arith))

    -- An index of the range of a segment is placed in that segment, at the offset of the range.
    fixed_located :
        (k i : ℕ)
        → k < count
        → segment_top k ≤ i
        → i < segment_top k + segment_size k
        → (get_segment i ≡ k) × (segment_top k + index_in_segment i ≡ i)
    unfolding get_segment segment_top segment_size index_in_segment
    fixed_located k i h lo hi = (
      quotient,
      omega
          (arith, div-add-mod' i size, top_fits k (omega arith), ap (λ (t : ℕ). t * size) quotient),
    )
      where
        quotient : i / size ≡ k
        quotient =
            let above =
              (le-div_iff_mul-le {x = k} {y = i} some_size).1
                (omega (arith, top_fits k (omega arith))) in
            let below =
              (div-lt_iff_lt-mul {x = i} {y = k + 1} some_size).1
                (omega (arith, top_fits k (omega arith))) in
            omega arith

    pub fixed-IsPartition : IsPartition policy count
    fixed-IsPartition = record {
      starts = fixed_starts;
      adjacent = λ k h.
          omega (arith, fixed_adjacent k (omega arith), fixed_adjacent (k + 1) h, top_shift k h);
      filled = λ k h. omega (arith, fixed_adjacent k h);
      located = λ k i h lo hi. fixed_located k i h lo hi;
    }
