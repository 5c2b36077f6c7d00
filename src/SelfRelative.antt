-- ===== src/SelfRelative.antt =====
-- include/libpmemobj++/detail/self_relative_ptr_base_impl.hpp and
-- include/libpmemobj++/experimental/atomic_self_relative_ptr.hpp: pointers stored as the distance
-- from the place where they are stored.
pub mod Encoding
mod Tests
use libpmemobj_cpp.Common.{ℕ, ◌*◌, ◌==◌, if◌then◌else◌, Bool, true, false, bit_and}
use libpmemobj_cpp.Common.Words.{add64, sub64}

-- The offset that each self-relative pointer holds, by the address of the pointer.
abbrev pub Offsets : Type 0
Offsets = ℕ → ℕ

abbrev pub put : ℕ → ℕ → Offsets → Offsets
put at offset m i = if at == i then offset else m i

abbrev pub nullptr_offset : ℕ
nullptr_offset = 0

-- `uintptr_t mask = b; --mask;`
abbrev pub mask : Bool → ℕ
mask b = sub64 (if b then 1 else 0) 1

-- `offset_to_pointer(other_offset)` of the pointer stored at `this`
unfoldable pub offset_to_pointer : ℕ → ℕ → ℕ
offset_to_pointer this other_offset =
    bit_and (add64 (add64 this other_offset) 1) (mask (other_offset == nullptr_offset))

-- `pointer_to_offset(void *)`
unfoldable pub pointer_to_offset : ℕ → ℕ → ℕ
pointer_to_offset this ptr = bit_and (sub64 (sub64 ptr this) 1) (mask (ptr == 0))

-- `pointer_to_offset(const self_relative_ptr_base_impl &)`, for the pointer stored at `r`
unfoldable pub copied_offset : Offsets → ℕ → ℕ → ℕ
copied_offset m this r = add64 (m r) (bit_and (sub64 r this) (mask (m r == nullptr_offset)))

unfoldable pub to_void_pointer : Offsets → ℕ → ℕ
unfolding offset_to_pointer
to_void_pointer m this = offset_to_pointer this (m this)

-- `operator=` (what it adds to a transaction is `conditional_add_to_tx`, in `Snapshot`)
unfoldable pub assign : ℕ → ℕ → Offsets → Offsets
unfolding copied_offset
assign this r m = if this == r then m else put this (copied_offset m this r) m

unfoldable pub swap : ℕ → ℕ → Offsets → Offsets
unfolding to_void_pointer pointer_to_offset
swap this other m =
    let first = to_void_pointer m this in
    let second = to_void_pointer m other in
    if this == other
    then m
    else put other (pointer_to_offset other first) (put this (pointer_to_offset this second) m)

-- `std::atomic<self_relative_ptr<T>>::store`
unfoldable pub store : ℕ → ℕ → Offsets → Offsets
unfolding pointer_to_offset
store this desired m = put this (pointer_to_offset this desired) m

-- `exchange`: the pointer that was stored, and the memory.
unfoldable pub exchange : ℕ → ℕ → Offsets → ℕ × Offsets
unfolding pointer_to_offset offset_to_pointer
exchange this desired m =
    (offset_to_pointer this (m this), put this (pointer_to_offset this desired) m)

-- `compare_exchange_strong`: its result, `expected` and the memory.
unfoldable pub compare_exchange_strong : ℕ → ℕ → ℕ → Offsets → Bool × ℕ × Offsets
unfolding pointer_to_offset offset_to_pointer
compare_exchange_strong this expected desired m =
    if m this == pointer_to_offset this expected
    then (true, expected, put this (pointer_to_offset this desired) m)
    else (false, offset_to_pointer this (m this), m)

-- `fetch_add(val)` on pointers to objects of `size` bytes
unfoldable pub fetch_add : ℕ → ℕ → ℕ → Offsets → ℕ × Offsets
unfolding offset_to_pointer
fetch_add size this val m =
    (offset_to_pointer this (m this), put this (add64 (m this) (val * size)) m)
