-- ===== src/RadixTree/Slices.antt =====
-- The half bytes of a key, and the highest bit in which two bytes differ.
use Prim.Native.Nat.{bit_xor}
use native.Mathlib.Decide.{ℕ_discrete}
use libpmemobj_cpp.Common.{
  ℕ, zero, suc, ◌+◌, ◌*◌, ◌/◌, ◌%◌, ◌<◌, ◌≡◌, ◌≢◌, refl, ap, sym, ◌∙◌, arith, bit_and, ◌==◌, ltb,
  Bool, true, false, ◌||◌, if◌then◌else◌, ltb→lt, ◌⊎◌, inl, inr,
}
use libpmemobj_cpp.Common.Bits.{bit_and_low, bit_xor_half, bit_xor_zero}
use libpmemobj_cpp.Math.{mssb_index, bit_length}
use libpmemobj_cpp.RadixTree.{Key, slice_index, slice_mask, first_nib}

-- The half bytes of a key in their order.
unfoldable pub nibble : Key → ℕ → ℕ
nibble k p = if p % 2 == 0 then k.byte (p / 2) / 16 else k.byte (p / 2) % 16

-- Where in that order a node branches.
abbrev pub position : ℕ → ℕ → ℕ
position byte bit = 2 * byte + (if bit == first_nib then 0 else 1)

pub nibble_even : (k : Key) (i : ℕ) → nibble k (2 * i) ≡ k.byte i / 16
unfolding nibble
nibble_even k i = let half : 2 * i / 2 ≡ i = omega arith in rw half (ground arith)

pub nibble_odd : (k : Key) (i : ℕ) → nibble k (2 * i + 1) ≡ k.byte i % 16
unfolding nibble
nibble_odd k i = let half : (2 * i + 1) / 2 ≡ i = omega arith in rw half (ground arith)

pub slice_index-nibble :
    (k : Key) (byte bit : ℕ)
    → k.byte byte < 256
    → (bit ≡ 4) ⊎ (bit ≡ 0)
    → slice_index (k.byte byte) bit ≡ nibble k (position byte bit)
unfolding slice_index nibble
slice_index-nibble k byte bit h (inl e) =
    let half : (2 * byte + 0) / 2 ≡ byte = omega arith in
    rw (e, half) (ground (arith, bit_and_low 4 (k.byte byte / 16)))
slice_index-nibble k byte bit h (inr e) =
    let half : (2 * byte + 1) / 2 ≡ byte = omega arith in
    rw (e, half) (ground (arith, bit_and_low 4 (k.byte byte / 1)))

-- A test that every number below a bound passes.
passes : (ℕ → Bool) → ℕ → Bool
passes test zero = true
passes test (suc bound) = if test bound then passes test bound else false

passes_lem : (test : ℕ → Bool) (bound i : ℕ) → passes test bound ≡ true → i < bound → test i ≡ true
unfolding passes
passes_lem test zero i all small = absurd (omega arith)
passes_lem test (suc bound) i all small =
    let last : test bound ≡ true = ground (arith, all) in
    elim (ℕ_discrete bound i) [
      | yes at ↦ ap test (sym at) ∙ last
      | no below ↦ passes_lem test bound i (ground (arith, all, last)) (omega arith)
    ]

-- The bits that `bit_diff` keeps, for every byte but 0.
mask_table :
    passes (λ x. x == 0 || bit_and (mssb_index x) slice_mask == (if x / 16 == 0 then 0 else 4)) 256
    ≡ true
unfolding passes mssb_index bit_length
mask_table = refl

xor_table : passes (λ a. passes (λ b. ltb (bit_xor a b) 16) 16) 16 ≡ true
unfolding passes
xor_table = refl

xor_sixteenth : (a b : ℕ) → bit_xor a b / 16 ≡ bit_xor (a / 16) (b / 16)
xor_sixteenth a b =
    let quarter : (n : ℕ) → n / 2 / 2 / 2 / 2 ≡ n / 16 = λ n. omega arith in
    sym (quarter (bit_xor a b))
    ∙ ap (λ t. t / 2 / 2 / 2) (bit_xor_half a b)
    ∙ ap (λ t. t / 2 / 2) (bit_xor_half (a / 2) (b / 2))
    ∙ ap (λ t. t / 2) (bit_xor_half (a / 2 / 2) (b / 2 / 2))
    ∙ bit_xor_half (a / 2 / 2 / 2) (b / 2 / 2 / 2)
    ∙ ap (λ t. bit_xor t (b / 2 / 2 / 2 / 2)) (quarter a)
    ∙ ap (λ t. bit_xor (a / 16) t) (quarter b)

xor_byte : (a b : ℕ) → a < 256 → b < 256 → bit_xor a b < 256
xor_byte a b p q =
    let row =
      passes_lem (λ a. passes (λ b. ltb (bit_xor a b) 16) 16) 16 (a / 16) xor_table (omega arith) in
    let cell = passes_lem (λ b. ltb (bit_xor (a / 16) b) 16) 16 (b / 16) row (omega arith) in
    omega (arith, xor_sixteenth a b, ltb→lt (bit_xor (a / 16) (b / 16)) 16 cell)

-- The slice that `bit_diff` finds for two different bytes: the upper one if they differ there.
pub sliced :
    (a b : ℕ)
    → a < 256
    → b < 256
    → a ≢ b
    → bit_and (mssb_index (bit_xor a b)) slice_mask ≡ (if a / 16 == b / 16 then 0 else 4)
sliced a b p q apart =
    let x = bit_xor a b in
    let entry = passes_lem _ 256 x mask_table (xor_byte a b p q) in
    let some_bit : x ≢ 0 = λ e. apart ((bit_xor_zero 8 a b p q).0 e) in
    let upper = bit_xor_zero 4 (a / 16) (b / 16) (omega arith) (omega arith) in
    elim (ℕ_discrete (a / 16) (b / 16)) [
      | yes e ↦
          let low : x / 16 ≡ 0 = xor_sixteenth a b ∙ upper.1 e in
          ground (arith, entry, some_bit, low, e)
      | no e ↦
          let high : x / 16 ≢ 0 = λ z. e (upper.0 (sym (xor_sixteenth a b) ∙ z)) in
          ground (arith, entry, some_bit, high, e)
    ]
