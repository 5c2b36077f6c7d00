-- ===== src/Common/Bits.antt =====
-- `&` and `|` on words, as arithmetic at every width: masks of low and of high bits, and `|` of a
-- word with one that lies below a block of its bits.
use Prim.Native.Nat.{digits, differ, bit_xor, bit_and-bitwise, bit_or-bitwise, bit_xor-bitwise}
use native.Mathlib.Nat.{pow-suc, one-le-pow, mod-eq_of_lt}
use libpmemobj_cpp.Common.{
  ℕ, zero, suc, ◌+◌, ◌-◌, ◌*◌, ◌/◌, ◌%◌, ◌^◌, ◌≤◌, ◌<◌, ◌≡◌, refl, ap, sym, ◌∙◌, arith, min, max,
  bit_and, bit_or, ◌↔◌,
}

-- More fuel than the first word has digits changes nothing.
digits_enough :
    (z : ℕ → ℕ) (f : ℕ → ℕ → ℕ) (n m a b : ℕ) → a ≤ n → a ≤ m → digits z f n a b ≡ digits z f m a b
digits_enough z f zero zero a b p q = refl
digits_enough z f zero (suc m) zero b p q = refl
digits_enough z f zero (suc m) (suc a) b p q = absurd (omega arith)
digits_enough z f (suc n) zero zero b p q = refl
digits_enough z f (suc n) zero (suc a) b p q = absurd (omega arith)
digits_enough z f (suc n) (suc m) zero b p q = refl
digits_enough z f (suc n) (suc m) (suc a) b p q =
    omega (arith, digits_enough z f n m (suc a / 2) (b / 2) (omega arith) (omega arith))

pub bit_and_step : (a b : ℕ) → bit_and a b ≡ bit_and (a / 2) (b / 2) * 2 + min (a % 2) (b % 2)
bit_and_step zero b = omega (arith, bit_and-bitwise 0 b, bit_and-bitwise 0 (b / 2))
bit_and_step (suc a) b = omega (
  arith,
  bit_and-bitwise (suc a) b,
  bit_and-bitwise (suc a / 2) (b / 2),
  digits_enough (λ _. 0) min a (suc a / 2) (suc a / 2) (b / 2) (omega arith) (omega arith),
)

pub bit_or_step : (a b : ℕ) → bit_or a b ≡ bit_or (a / 2) (b / 2) * 2 + max (a % 2) (b % 2)
bit_or_step zero b = omega (arith, bit_or-bitwise 0 b, bit_or-bitwise 0 (b / 2))
bit_or_step (suc a) b = omega (
  arith,
  bit_or-bitwise (suc a) b,
  bit_or-bitwise (suc a / 2) (b / 2),
  digits_enough (λ y. y) max a (suc a / 2) (suc a / 2) (b / 2) (omega arith) (omega arith),
)

pub two_pow_suc : (k : ℕ) → 2 ^ suc k ≡ 2 * 2 ^ k
two_pow_suc k = omega (arith, pow-suc 2 k)

pub two_pow_pos : (k : ℕ) → 0 < 2 ^ k
two_pow_pos k = one-le-pow k 2 (omega arith)

pub lt_two_pow : (a : ℕ) → a < 2 ^ a
lt_two_pow zero = omega arith
lt_two_pow (suc a) = omega (arith, two_pow_suc a, lt_two_pow a)

bit_and_zero_below : (w a : ℕ) → a < 2 ^ w → bit_and a 0 ≡ 0
bit_and_zero_below zero a h = ground (arith, bit_and-bitwise 0 0)
bit_and_zero_below (suc w) a h = omega (
  arith,
  bit_and_step a 0,
  two_pow_suc w,
  bit_and_zero_below w (a / 2) (omega (arith, two_pow_suc w)),
)

pub bit_and-zero : (a : ℕ) → bit_and a 0 ≡ 0
bit_and-zero a = bit_and_zero_below a a (lt_two_pow a)

mul_two_pow_suc : (q k : ℕ) → q * 2 ^ suc k ≡ 2 * (q * 2 ^ k)
mul_two_pow_suc q k = omega (arith, ap (λ (t : ℕ). q * t) (two_pow_suc k))

-- A number is its high part and its low part.
pub split_at : (k a : ℕ) → (a / 2 ^ k * 2 ^ k + a % 2 ^ k ≡ a) × (a % 2 ^ k < 2 ^ k)
split_at k a = (omega (arith, two_pow_pos k), omega (arith, two_pow_pos k))

low_of_parts : (k q r : ℕ) → r < 2 ^ k → bit_and (q * 2 ^ k + r) (2 ^ k - 1) ≡ r
low_of_parts zero q r h = omega (arith, bit_and-zero (q * 2 ^ 0 + r))
low_of_parts (suc k) q r h = ground (
  arith,
  two_pow_suc k,
  two_pow_pos k,
  mul_two_pow_suc q k,
  bit_and_step (q * 2 ^ suc k + r) (2 ^ suc k - 1),
  low_of_parts k q (r / 2),
)

-- A mask of the `k` low bits is the remainder by `2 ^ k`.
pub bit_and_low : (k a : ℕ) → bit_and a (2 ^ k - 1) ≡ a % 2 ^ k
bit_and_low k a =
    let (e, lt) = split_at k a in
    ap (λ (t : ℕ). bit_and t (2 ^ k - 1)) (sym e) ∙ low_of_parts k (a / 2 ^ k) (a % 2 ^ k) lt

high_of_parts :
    (w k q r : ℕ)
    → q < 2 ^ w
    → r < 2 ^ k
    → bit_and (q * 2 ^ k + r) ((2 ^ w - 1) * 2 ^ k) ≡ q * 2 ^ k
high_of_parts w zero q r hq hr =
    ground (arith, bit_and_low w q, two_pow_pos w, mod-eq_of_lt {n = q} {m = 2 ^ w})
high_of_parts w (suc k) q r hq hr = ground (
  arith,
  two_pow_suc k,
  mul_two_pow_suc q k,
  mul_two_pow_suc (2 ^ w - 1) k,
  bit_and_step (q * 2 ^ suc k + r) ((2 ^ w - 1) * 2 ^ suc k),
  high_of_parts w k q (r / 2),
)

-- A mask of the `w` bits from `k` on clears the `k` low bits.
pub bit_and_high :
    (w k a : ℕ) → a / 2 ^ k < 2 ^ w → bit_and a ((2 ^ w - 1) * 2 ^ k) ≡ a / 2 ^ k * 2 ^ k
bit_and_high w k a h =
    let (e, lt) = split_at k a in
    ap (λ (t : ℕ). bit_and t ((2 ^ w - 1) * 2 ^ k)) (sym e)
    ∙ high_of_parts w k (a / 2 ^ k) (a % 2 ^ k) h lt

bit_or_zero_below : (w a : ℕ) → a < 2 ^ w → bit_or a 0 ≡ a
bit_or_zero_below zero a h = ground (arith, bit_or-bitwise 0 0)
bit_or_zero_below (suc w) a h = omega (
  arith,
  bit_or_step a 0,
  two_pow_suc w,
  bit_or_zero_below w (a / 2) (omega (arith, two_pow_suc w)),
)

pub bit_or-zero : (a : ℕ) → bit_or a 0 ≡ a
bit_or-zero a = bit_or_zero_below a a (lt_two_pow a)

pub zero-bit_or : (a : ℕ) → bit_or 0 a ≡ a
zero-bit_or a = bit_or-bitwise 0 a

-- `|` of words whose ones do not meet, and of words with a common block of high bits.
pub bit_or_fields :
    (k q r s : ℕ) → r < 2 ^ k → s < 2 ^ k → bit_or (q * 2 ^ k + r) s ≡ q * 2 ^ k + bit_or r s
bit_or_fields zero q r s hr hs = ground (arith, bit_or-zero q, bit_or-zero 0)
bit_or_fields (suc k) q r s hr hs = ground (
  arith,
  two_pow_suc k,
  mul_two_pow_suc q k,
  bit_or_step (q * 2 ^ suc k + r) s,
  bit_or_step r s,
  bit_or_fields k q (r / 2) (s / 2),
)

-- `|` stays within the width, and is no smaller than its sides.
pub bit_or-bounds :
    (w a b : ℕ) → a < 2 ^ w → b < 2 ^ w → (bit_or a b < 2 ^ w) × (a ≤ bit_or a b) × (b ≤ bit_or a b)
bit_or-bounds zero a b ha hb = ground (arith, bit_or-zero 0)
bit_or-bounds (suc w) a b ha hb =
    ground (arith, two_pow_suc w, bit_or_step a b, bit_or-bounds w (a / 2) (b / 2))

pub two_pow_add : (j k n : ℕ) → j + k ≡ n → 2 ^ n ≡ 2 ^ j * 2 ^ k
two_pow_add zero k n h = let e : n ≡ k = omega arith in rw e (omega arith)
two_pow_add (suc j) k zero h = absurd (omega arith)
two_pow_add (suc j) k (suc n) h = grind (
  arith,
  two_pow_suc j,
  two_pow_suc n,
  two_pow_add j k n (omega arith),
  mul_two_pow_suc (2 ^ k) j,
)

pub pred-mul : (a b : ℕ) → 0 < a → (a - 1) * b + b ≡ a * b
pred-mul zero b h = absurd (omega arith)
pred-mul (suc a) b h = grind arith

bit_xor_step : (a b : ℕ) → bit_xor a b ≡ bit_xor (a / 2) (b / 2) * 2 + differ (a % 2) (b % 2)
bit_xor_step zero b = omega (arith, bit_xor-bitwise 0 b, bit_xor-bitwise 0 (b / 2))
bit_xor_step (suc a) b = omega (
  arith,
  bit_xor-bitwise (suc a) b,
  bit_xor-bitwise (suc a / 2) (b / 2),
  digits_enough (λ y. y) differ a (suc a / 2) (suc a / 2) (b / 2) (omega arith) (omega arith),
)

differ_bits : (d e : ℕ) → d < 2 → e < 2 → (differ d e < 2) × ((differ d e ≡ 0) ↔ (d ≡ e))
differ_bits zero e p q = ground arith
differ_bits (suc zero) zero p q = ground arith
differ_bits (suc zero) (suc zero) p q = ground arith
differ_bits d (suc (suc e)) p q = absurd (omega arith)
differ_bits (suc (suc d)) e p q = absurd (omega arith)

both_zero : (a b : ℕ) → a < 2 ^ 0 → b < 2 ^ 0 → bit_xor a b ≡ 0
both_zero zero zero p q = refl
both_zero zero (suc b) p q = absurd (omega arith)
both_zero (suc a) b p q = absurd (omega arith)

-- Exclusive or, half by half.
pub bit_xor_half : (a b : ℕ) → bit_xor a b / 2 ≡ bit_xor (a / 2) (b / 2)
bit_xor_half a b =
    omega (arith, bit_xor_step a b, (differ_bits (a % 2) (b % 2) (omega arith) (omega arith)).0)

pub bit_xor_zero : (w a b : ℕ) → a < 2 ^ w → b < 2 ^ w → (bit_xor a b ≡ 0) ↔ (a ≡ b)
bit_xor_zero zero a b p q = (λ _. omega arith, λ e. both_zero a b p q)
bit_xor_zero (suc w) a b p q =
    let halves = two_pow_suc w in
    let (to, from) =
      bit_xor_zero w (a / 2) (b / 2) (omega (arith, halves)) (omega (arith, halves)) in
    let step = bit_xor_step a b in
    let (small, same) = differ_bits (a % 2) (b % 2) (omega arith) (omega arith) in
    (
      λ e.
          let half : a / 2 ≡ b / 2 = to (omega (arith, step, e)) in
          let last : a % 2 ≡ b % 2 = same.0 (omega (arith, step, e)) in omega (arith, half, last),
      λ e.
          let half = from (ap (λ t. t / 2) e) in
          let last = same.1 (ap (λ t. t % 2) e) in omega (arith, step, half, last),
    )
