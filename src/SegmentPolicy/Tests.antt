-- ===== src/SegmentPolicy/Tests.antt =====
-- Runs of the policies, and the theorems at inputs that meet their hypotheses.
use libpmemobj_cpp.Common.{◌+◌, ◌<◌, ◌≡◌, refl, arith}
use libpmemobj_cpp.SegmentPolicy.Exponential.{
  get_segment, segment_top, segment_size, index_in_segment, capacity, elements,
  exponential_adjacent, exponential_located, exponential_unique,
}

segments : (segment_top 0 ≡ 0) × (segment_top 3 ≡ 8) × (segment_size 0 ≡ 2) × (capacity 3 ≡ 16)
unfolding segment_top segment_size capacity
segments = (refl, refl, refl, refl)

exponential_adjacent_example :
    (segment_top 5 + segment_size 5 ≡ elements 5)
    × (capacity 5 ≡ elements 5)
    × (segment_top (5 + 1) ≡ elements 5)
exponential_adjacent_example = exponential_adjacent 5 (omega arith)

exponential_located_example :
    (get_segment 1000 < 63)
    × (index_in_segment 1000 < segment_size (get_segment 1000))
    × (segment_top (get_segment 1000) + index_in_segment 1000 ≡ 1000)
exponential_located_example = exponential_located 1000 (omega arith)

exponential_unique_example : get_segment 1000 ≡ 9
unfolding segment_top segment_size
exponential_unique_example = exponential_unique 9 1000 (omega arith) (omega arith) (omega arith)
