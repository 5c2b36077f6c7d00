-- ===== src/SelfRelative/Encoding.antt =====
-- What an encoded pointer decodes to, and what the operations do to the pointers.
use native.Mathlib.Decide.{ℕ_discrete}
use libpmemobj_cpp.Common.{ℕ, ◌<◌, ◌≡◌, ◌≢◌, sym, ◌∙◌, ap, true, false, bit_and, arith}
use libpmemobj_cpp.Common.Words.{word_mod, add64, sub64}
use libpmemobj_cpp.Common.Bits.{bit_and_low, bit_and-zero}
use libpmemobj_cpp.SelfRelative.{
  Offsets, mask, offset_to_pointer, pointer_to_offset, copied_offset, to_void_pointer, assign, swap,
  compare_exchange_strong,
}

masked_on : (x : ℕ) → x < word_mod → bit_and x (mask false) ≡ x
masked_on x h = bit_and_low 64 x ∙ omega arith

masked_off : (x : ℕ) → bit_and x (mask true) ≡ 0
masked_off x = bit_and-zero x

decode_null : (this o : ℕ) → o ≡ 0 → offset_to_pointer this o ≡ 0
unfolding offset_to_pointer
decode_null this o e = ground (arith, e, masked_off (add64 (add64 this o) 1))

pub decode_offset : (this o : ℕ) → o ≢ 0 → offset_to_pointer this o ≡ add64 (add64 this o) 1
unfolding offset_to_pointer
decode_offset this o e = ground (arith, e, masked_on (add64 (add64 this o) 1) (omega arith))

encode_null : (this p : ℕ) → p ≡ 0 → pointer_to_offset this p ≡ 0
unfolding pointer_to_offset
encode_null this p e = ground (arith, e, masked_off (sub64 (sub64 p this) 1))

encode_pointer : (this p : ℕ) → p ≢ 0 → pointer_to_offset this p ≡ sub64 (sub64 p this) 1
unfolding pointer_to_offset
encode_pointer this p e = ground (arith, e, masked_on (sub64 (sub64 p this) 1) (omega arith))

copied_null : (m : Offsets) (this r : ℕ) → m r ≡ 0 → copied_offset m this r ≡ 0
unfolding copied_offset
copied_null m this r e = ground (arith, e, masked_off (sub64 r this))

copied_pointer :
    (m : Offsets) (this r : ℕ) → m r ≢ 0 → copied_offset m this r ≡ add64 (m r) (sub64 r this)
unfolding copied_offset
copied_pointer m this r e = ground (arith, e, masked_on (sub64 r this) (omega arith))

-- A pointer decodes to what was encoded, unless it is the byte behind the first of the pointer
-- itself, which is encoded as the null pointer.
pub offset_to_pointer-pointer_to_offset :
    (this p : ℕ)
    → this < word_mod
    → p < word_mod
    → ((p ≢ add64 this 1) → offset_to_pointer this (pointer_to_offset this p) ≡ p)
      × ((p ≡ add64 this 1) → offset_to_pointer this (pointer_to_offset this p) ≡ 0)
offset_to_pointer-pointer_to_offset this p hthis hp = elim (ℕ_discrete p 0) [
  | yes e ↦
      let zero_back = decode_null this (pointer_to_offset this p) (encode_null this p e) in
      (λ _. zero_back ∙ sym e, λ _. zero_back)
  | no e ↦
      let offset = encode_pointer this p e in
      (
        λ differs.
            let some_offset : pointer_to_offset this p ≢ 0 =
              λ z. differs (omega (arith, z, offset)) in
            decode_offset this (pointer_to_offset this p) some_offset ∙ omega (arith, offset),
        λ same. decode_null this (pointer_to_offset this p) (omega (arith, offset, same)),
      )
]

copied_points :
    (m : Offsets) (this r : ℕ)
    → this < word_mod
    → r < word_mod
    → m r < word_mod
    → offset_to_pointer r (m r) ≢ add64 this 1
    → offset_to_pointer this (copied_offset m this r) ≡ offset_to_pointer r (m r)
copied_points m this r hthis hr hm differs = elim (ℕ_discrete (m r) 0) [
  | yes e ↦
      decode_null this (copied_offset m this r) (copied_null m this r e)
      ∙ sym (decode_null r (m r) e)
  | no e ↦
      let target = decode_offset r (m r) e in
      let offset = copied_pointer m this r e in
      let some_offset : copied_offset m this r ≢ 0 =
        λ z. differs (omega (arith, z, offset, target)) in
      decode_offset this (copied_offset m this r) some_offset ∙ omega (arith, offset, target)
]

-- An assignment makes the left pointer point where the right one does, unless that is the byte
-- behind the first of the left pointer itself, and leaves every other pointer as it is.
pub assign_points :
    (m : Offsets) (this r : ℕ)
    → this < word_mod
    → r < word_mod
    → m r < word_mod
    → to_void_pointer m r ≢ add64 this 1
    → (to_void_pointer (assign this r m) this ≡ to_void_pointer m r)
      × ((q : ℕ) → q ≢ this → assign this r m q ≡ m q)
unfolding assign to_void_pointer
assign_points m this r hthis hr hm differs = elim (ℕ_discrete this r) [
  | yes e ↦ (ground (arith, e), λ q d. ground (arith, e))
  | no e ↦
      let offset : assign this r m this ≡ copied_offset m this r = ground (arith, e) in
      (
        ap (offset_to_pointer this) offset ∙ copied_points m this r hthis hr hm differs,
        λ q d. ground (arith, e, d),
      )
]

-- `swap` of two different pointers makes each point where the other did, unless that is the byte
-- behind the first of the pointer itself, and leaves every other pointer as it is.
swap_points :
    (m : Offsets) (this other : ℕ)
    → this < word_mod
    → other < word_mod
    → this ≢ other
    → to_void_pointer m this < word_mod
    → to_void_pointer m other < word_mod
    → to_void_pointer m other ≢ add64 this 1
    → to_void_pointer m this ≢ add64 other 1
    → (to_void_pointer (swap this other m) this ≡ to_void_pointer m other)
      × (to_void_pointer (swap this other m) other ≡ to_void_pointer m this)
      × ((q : ℕ) → q ≢ this → q ≢ other → swap this other m q ≡ m q)
unfolding swap to_void_pointer
swap_points m this other hthis hother apart ht ho dt do_ =
    let first = to_void_pointer m this in
    let second = to_void_pointer m other in
    let here : swap this other m this ≡ pointer_to_offset this second = ground (arith, apart) in
    let there : swap this other m other ≡ pointer_to_offset other first = ground (arith, apart) in
    (
      ap (offset_to_pointer this) here
          ∙ (offset_to_pointer-pointer_to_offset this second hthis ho).0 dt,
      ap (offset_to_pointer other) there
          ∙ (offset_to_pointer-pointer_to_offset other first hother ht).0 do_,
      λ q d d'. ground (arith, apart, d, d'),
    )

encode_decode :
    (this o : ℕ)
    → this < word_mod
    → o < word_mod
    → offset_to_pointer this o ≢ 0
    → pointer_to_offset this (offset_to_pointer this o) ≡ o
encode_decode this o hthis ho some_target = elim (ℕ_discrete o 0) [
  | yes e ↦ absurd (some_target (decode_null this o e))
  | no e ↦
      let target = decode_offset this o e in
      encode_pointer this (offset_to_pointer this o) some_target ∙ omega (arith, target)
]

-- `compare_exchange_strong` of an atomic self-relative pointer, where the pointers expected and
-- desired are not the byte behind its own first, and the pointer stored is null only if its offset
-- is: if the stored pointer is the one expected, it succeeds and stores the
-- one desired, and otherwise it fails, stores nothing and returns the stored pointer in `expected`.
pub compare_exchange_strong_lem :
    (m : Offsets) (this expected desired : ℕ)
    → this < word_mod
    → m this < word_mod
    → expected < word_mod
    → desired < word_mod
    → expected ≢ add64 this 1
    → desired ≢ add64 this 1
    → ((to_void_pointer m this ≡ 0) → m this ≡ 0)
    → ((to_void_pointer m this ≡ expected)
        → ((compare_exchange_strong this expected desired m).0 ≡ true)
          × (to_void_pointer (compare_exchange_strong this expected desired m).2 this ≡ desired))
      × ((to_void_pointer m this ≢ expected)
          → ((compare_exchange_strong this expected desired m).0 ≡ false)
            × ((compare_exchange_strong this expected desired m).1 ≡ to_void_pointer m this)
            × ((compare_exchange_strong this expected desired m).2 ≡ m))
unfolding compare_exchange_strong to_void_pointer
compare_exchange_strong_lem m this expected desired hthis hm he hd de dd canonical =
    let stored = offset_to_pointer this (m this) in
    (
      λ same.
          let offset : m this ≡ pointer_to_offset this expected = elim (ℕ_discrete expected 0) [
            | yes e ↦ canonical (same ∙ e) ∙ sym (encode_null this expected e)
            | no e ↦
                sym (encode_decode this (m this) hthis hm (λ z. e (sym same ∙ z)))
                ∙ ap (pointer_to_offset this) same
          ] in
          let held : (compare_exchange_strong this expected desired m).2 this
              ≡ pointer_to_offset this desired =
            ground (arith, offset) in
          (
            ground (arith, offset),
            ap (offset_to_pointer this) held
                ∙ (offset_to_pointer-pointer_to_offset this desired hthis hd).0 dd,
          ),
      λ differ.
          let offset : m this ≢ pointer_to_offset this expected = λ e. differ (
            ap (offset_to_pointer this) e
            ∙ (offset_to_pointer-pointer_to_offset this expected hthis he).0 de) in
          (ground (arith, offset), ground (arith, offset), ground (arith, offset)),
    )
