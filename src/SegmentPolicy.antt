-- ===== src/SegmentPolicy.antt =====
-- The policies of include/libpmemobj++/container/detail/segment_vector_policies.hpp, which place
-- the elements of a segment vector: an index goes to a segment and a position in it. The record
-- is what `segment_vector` uses of a policy; the children are the two policies of the file.
pub mod Fixed
pub mod Exponential
mod Tests
use libpmemobj_cpp.Common.{ℕ, ◌+◌, ◌≤◌, ◌<◌, ◌≡◌}

-- The static functions that both policy classes have.
pub record Policy : Type 0 where
  pub get_segment : ℕ → ℕ
  pub segment_top : ℕ → ℕ
  pub segment_size : ℕ → ℕ
  pub index_in_segment : ℕ → ℕ
  pub capacity : ℕ → ℕ

-- The segments below `count` partition the indices from 0 up, one after the other.
pub record IsPartition (p : Policy) (count : ℕ) : Type 0 where
  pub starts : p.segment_top 0 ≡ 0
  pub adjacent :
      (k : ℕ) → k + 1 < count → p.segment_top (k + 1) ≡ p.segment_top k + p.segment_size k
  pub filled : (k : ℕ) → k < count → p.capacity k ≡ p.segment_top k + p.segment_size k
  pub located :
      (k i : ℕ)
      → k < count
      → p.segment_top k ≤ i
      → i < p.segment_top k + p.segment_size k
      → (p.get_segment i ≡ k) × (p.segment_top k + p.index_in_segment i ≡ i)
