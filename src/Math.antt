-- ===== src/Math.antt =====
-- The integer helpers of include/libpmemobj++/detail/common.hpp: rounding to an alignment, to a
-- power of two, and the index of the highest set bit.
pub mod Bounds
pub mod PowerOfTwo
mod Tests
use libpmemobj_cpp.Common.{
  ℕ, zero, suc, ◌+◌, ◌-◌, ◌*◌, ◌/◌, ◌%◌, ◌^◌, bit_and, bit_or, ◌==◌, if◌then◌else◌,
}
use libpmemobj_cpp.Common.Words.{add64, sub64, not64}

-- `align_up`: `((size) + (align)-1) & ~((align)-1)`.
pub align_up : ℕ → ℕ → ℕ
align_up size align = bit_and (sub64 (add64 size align) 1) (not64 (sub64 align 1))

-- `align_down`: `(size) & ~((align)-1)`.
pub align_down : ℕ → ℕ → ℕ
align_down size align = bit_and size (not64 (sub64 align 1))

-- The number of binary digits of `x`, if it has no more than the first argument.
unfoldable pub bit_length : ℕ → ℕ → ℕ
bit_length zero x = 0
bit_length (suc w) x = if x == 0 then 0 else suc (bit_length w (x / 2))

-- `__builtin_clzll`, the compiler's count of leading zeros of 64 bits.
abbrev pub clz64 : ℕ → ℕ
clz64 x = 64 - bit_length 64 x

-- `__builtin_clz`, of 32 bits.
abbrev pub clz32 : ℕ → ℕ
clz32 x = 32 - bit_length 32 x

-- `Log2`, the variant for gcc and clang.
unfoldable pub log2 : ℕ → ℕ
log2 x = 8 * 8 - clz64 x - 1

-- `mssb_index64`.
pub mssb_index64 : ℕ → ℕ
mssb_index64 value = (63 - clz64 value) % 2 ^ 8

-- `mssb_index`.
unfoldable pub mssb_index : ℕ → ℕ
mssb_index value = (31 - clz32 value) % 2 ^ 8

-- `v |= v >> k`.
unfoldable pub smear : ℕ → ℕ → ℕ
smear k v = bit_or v (v / 2 ^ k)

-- `next_pow_2` for `uint64_t`.
unfoldable pub next_pow_2 : ℕ → ℕ
next_pow_2 v = add64 next (if next == 0 then 1 else 0)
  where
    next : ℕ
    next = add64 (smear 32 (smear 16 (smear 8 (smear 4 (smear 2 (smear 1 (sub64 v 1))))))) 1

-- `next_pow_2` for `uint32_t`: the argument wraps at 32 bits, and the sum is returned as `uint64_t`.
pub next_pow_2_u32 : ℕ → ℕ
next_pow_2_u32 v = (next + (if next == 0 then 1 else 0)) % 2 ^ 32
  where
    next : ℕ
    next =
        (smear 16 (smear 8 (smear 4 (smear 2 (smear 1 ((v + 2 ^ 32 - 1) % 2 ^ 32))))) + 1) % 2 ^ 32
