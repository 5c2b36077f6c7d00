-- ===== src/SelfRelative/Tests.antt =====
-- Two pointers, at the addresses 100 and 200, which point to 150 and 300.
use libpmemobj_cpp.Common.{ℕ, ◌≡◌, ◌≢◌, arith, true, false, ◌==◌, if◌then◌else◌, ◌∙◌}
use libpmemobj_cpp.Common.Words.{add64}
use libpmemobj_cpp.SelfRelative.{
  Offsets, offset_to_pointer, pointer_to_offset, to_void_pointer, assign, compare_exchange_strong,
}
use libpmemobj_cpp.SelfRelative.Encoding.{
  decode_offset, offset_to_pointer-pointer_to_offset, assign_points, compare_exchange_strong_lem,
}

abbrev two : Offsets
two at = if at == 100 then 49 else if at == 200 then 99 else 0

first_points : to_void_pointer two 100 ≡ 150
unfolding to_void_pointer
first_points = decode_offset 100 49 (λ e. absurd (omega (arith, e))) ∙ omega arith

second_points : to_void_pointer two 200 ≡ 300
unfolding to_void_pointer
second_points = decode_offset 200 99 (λ e. absurd (omega (arith, e))) ∙ omega arith

offset_to_pointer-pointer_to_offset_example :
    ((150 ≢ add64 100 1) → offset_to_pointer 100 (pointer_to_offset 100 150) ≡ 150)
    × ((150 ≡ add64 100 1) → offset_to_pointer 100 (pointer_to_offset 100 150) ≡ 0)
offset_to_pointer-pointer_to_offset_example =
    offset_to_pointer-pointer_to_offset 100 150 (omega arith) (omega arith)

assign_points_example :
    (to_void_pointer (assign 100 200 two) 100 ≡ to_void_pointer two 200)
    × ((q : ℕ) → q ≢ 100 → assign 100 200 two q ≡ two q)
assign_points_example =
    assign_points two 100 200 (omega arith) (omega arith) (omega arith)
      (λ e. absurd (omega (arith, e, second_points)))

compare_exchange_strong_lem_example :
    ((to_void_pointer two 100 ≡ 150)
      → ((compare_exchange_strong 100 150 300 two).0 ≡ true)
        × (to_void_pointer (compare_exchange_strong 100 150 300 two).2 100 ≡ 300))
    × ((to_void_pointer two 100 ≢ 150)
        → ((compare_exchange_strong 100 150 300 two).0 ≡ false)
          × ((compare_exchange_strong 100 150 300 two).1 ≡ to_void_pointer two 100)
          × ((compare_exchange_strong 100 150 300 two).2 ≡ two))
compare_exchange_strong_lem_example =
    compare_exchange_strong_lem two 100 150 300 (omega arith) (omega arith) (omega arith)
      (omega arith) (λ e. absurd (omega (arith, e))) (λ e. absurd (omega (arith, e)))
      (λ e. absurd (omega (arith, e, first_points)))
