-- ===== src/Lib.antt =====
-- Verification of libpmemobj-cpp, the C++ binding of libpmemobj: transactions, persistent
-- containers and the structures below them, all under include/libpmemobj++.
--
-- The parts and how they interact. A public function of a container runs its body in
-- `flat_transaction::run`, adds the memory that it will change to the transaction, and changes it.
-- If the body throws, the transaction is aborted and libpmemobj restores the memory. The containers
-- choose capacities with the integer helpers, and segment_vector finds the place of an element with
-- a size policy. A string_view is how strings are passed without a copy.
--
-- Which file models which part (paths without include/libpmemobj++/ in front):
--   Common           what the models share: lists on native numbers, 64-bit words, bit operations,
--                    and code that may throw (`Action`: a result, and the state left behind).
--   Math             detail/common.hpp: align_up, align_down, Log2, mssb_index, next_pow_2.
--   SegmentPolicy    container/detail/segment_vector_policies.hpp: Fixed is fixed_size_policy and
--                    Exponential is exponential_size_policy.
--   Tx               transaction.hpp: the constructor and destructor of `manual` are `manual` and
--                    `leave`, run is `run` with `conclude`, ~automatic is `end_automatic`; abort and
--                    commit have their names. Tx.Callback is register_callback and c_callback.
--                    Tx.Contract states what is used of libpmemobj's transactions.
--   Snapshot         conditional_add_to_tx of detail/common.hpp.
--   Vector           container/vector.hpp: Private has the private functions, Insert and Modify the
--                    public ones under their names (`insert_fill` is insert of copies, `insert_range`
--                    of a range, `assign_fill` and `assign_range` likewise, `resize_fill` is resize
--                    with a value). A block of memory is a function from slots to what they hold.
--                    `realloc_from` is realloc with the old block as it leaves it, whose memory
--                    stays until the transaction commits.
--   BasicString      container/basic_string.hpp for char. The union of the array and the vector is a
--                    record with the bit that tells which is active; the vector is the one of
--                    Vector. Representation has the private functions; Modify, Inspect and Exchange
--                    the public ones under their names, each overload for a count and a character
--                    and for a range being one function of a `Source` (`insert_at` and `replace_at`
--                    take an index, `assign_move` is assign(basic_string &&)). BasicString.History
--                    says what a sequence of operations promises of the text.
--   ConcurrentHashMap  container/concurrent_hash_map.hpp, while one thread uses it: the functions
--                    under their names, on buckets by their index. `moved` and `kept` are the loop of
--                    rehash_bucket, and `unlink` is the one of internal_erase. An unallocated bucket
--                    is as a new one, so of enable_segment the mask is left.
--   StringView       string_view.hpp: a view is memory and a size, and the memory goes on behind it.
--   SelfRelative     detail/self_relative_ptr_base_impl.hpp and the atomic operations of
--                    experimental/atomic_self_relative_ptr.hpp. An address is a 64-bit word, and
--                    the memory is the offset held at each address.
--   Ebr              detail/ebr.hpp: `critical` is the steps enter, publish and leave, and `sync`
--                    is load, check and finish; `run` takes the steps of an interleaving in turn.
--                    Ebr.FullSync runs them without one: `sync`, and `full_sync` on fuel.
--   RadixTree        experimental/radix_tree.hpp: the functions under their names, and RadixTree.Erase
--                    is `erase`. A tree is null, a leaf or a node; a pointer to a slot is what a
--                    store into it makes of the whole tree, and the parent pointers of a leaf are
--                    the path from the root (`Parent`). RadixTree.Map adds size_, and RadixTree.History
--                    says what a sequence of operations promises of the searches.
-- Each of these modules has its theorems in child modules named for what they prove, and its
-- concrete runs in Tests.
--
-- libpmemobj is not part of the repository. Its calls are the fields of `Tx.Api` and `Vector.Env`:
-- an errno or success, as the caller chooses. What the theorems of Tx need of it is the record
-- `Tx.Contract.Documented`, and Tx.Tests gives a small machine that meets it. A theorem about a
-- vector says which calls do not fail. `Vector.transaction` is an outermost transaction by its
-- contract: the state is kept if the body returns, and is as before if it throws.
--
-- Bounds and fuel. Words are numbers below 2^64, and sums and differences of the source wrap as
-- written. The loop of string_view::find runs on fuel of one more than the characters left, which is
-- enough because its position grows in every round. A text fits a string (`Fits`) if the
-- capacity that the vector recommends for it and its null character is allowed, and they are at
-- most 2^63, where the sums of the source do not wrap. The loop of full_sync runs on fuel, three
-- being enough where it returns. `acquire` of a bucket of the hash map calls itself for the bucket
-- without the highest bit of the index, on fuel of 64, which is enough for the bits of an index. All
-- other loops are structural.
--
-- Not modelled: exceptions from constructors and assignments of elements, which would be a failure
-- at any element; iterators, slices and constructors of the vector; the order in which stores reach
-- persistent memory; threads, but for the steps of Ebr on sequentially consistent atomics; and the
-- structures that build on these parts (the inline string, the ordered map, the segment vector,
-- the queue, the persistent pointers, pools, allocators and locks). Of the persistent string, its
-- iterators, the access that adds characters to the transaction, the move constructor and the
-- snapshots of `_size` are left out, and a range that is inserted lies outside the string.
-- Of the concurrent hash map, its locks, the place of a bucket in the segments, rehash, clear,
-- iteration and the recovery of the size are left out, and no call of libpmemobj fails there.
-- Wrappers that only call libpmemobj and translate its errors have no model either.
pub mod Common
pub mod Math
pub mod SegmentPolicy
pub mod Tx
pub mod Snapshot
pub mod Vector
pub mod StringView
pub mod SelfRelative
pub mod Ebr
pub mod RadixTree
pub mod BasicString
pub mod ConcurrentHashMap
