-- ===== src/Common/Words.antt =====
-- Arithmetic on `size_t`, `uint64_t` and `uintptr_t`: 64-bit words as numbers below 2 ^ 64.
use libpmemobj_cpp.Common.{ℕ, ◌+◌, ◌-◌, ◌%◌, ◌^◌}

abbrev pub word_mod : ℕ
word_mod = 2 ^ 64

-- `a + b`
abbrev pub add64 : ℕ → ℕ → ℕ
add64 a b = (a + b) % word_mod

-- `a - b`, which wraps below zero
abbrev pub sub64 : ℕ → ℕ → ℕ
sub64 a b = (a + word_mod - b) % word_mod

-- `~a`
abbrev pub not64 : ℕ → ℕ
not64 a = word_mod - 1 - a
