-- ===== src/Vector/Tests.antt =====
-- A vector of three numbers, on which the theorems are run.
use libpmemobj_cpp.Common.{
  ℕ, zero, suc, ◌≡◌, ◌≢◌, ◌<◌, ◌≤◌, refl, inl, inr, true, false, none, some, [], ◌∷◌, arith,
}
use libpmemobj_cpp.Common.Effect.{
  ok, throws, transaction_alloc_error, transaction_out_of_memory, length_error,
}
use libpmemobj_cpp.Math.{next_pow_2, smear}
use libpmemobj_cpp.Vector.{Block, Vector, Env}
use libpmemobj_cpp.Vector.Private.{get_recommended_capacity}
use libpmemobj_cpp.Vector.Insert.{outside, inside, insert_range, emplace, emplace_back}
use libpmemobj_cpp.Vector.Modify.{erase, reserve}
use libpmemobj_cpp.Vector.Content.{Leaves}
use libpmemobj_cpp.Vector.Insertion.{
  insert_range_contents, emplace_contents, emplace_back_contents, emplace_back_of_own_element,
}
use libpmemobj_cpp.Vector.Sizes.{erase_contents, reserve_contents, insert_range_failures}

abbrev working : Env ℕ
working = record {
  max_size = 1000;
  tx_alloc = λ _. none;
  tx_free = none;
  xadd = λ _. none;
  trivially_destructible = false;
  moved_from = λ _. 0;
}

abbrev out_of_memory : Env ℕ
out_of_memory = record working { tx_alloc = λ _. some 12 }

abbrev slots : Block ℕ
slots zero = some 7
slots (suc zero) = some 8
slots (suc (suc zero)) = some 9
slots (suc (suc (suc k))) = none

abbrev roomy : Vector ℕ
roomy = record { has_data = true; block = slots; size = 3; capacity = 4; added = [] }

abbrev full : Vector ℕ
full = record roomy { capacity = 3 }

four : get_recommended_capacity 4 ≡ 4
unfolding get_recommended_capacity next_pow_2 smear
four = refl

five : get_recommended_capacity 5 ≡ 8
unfolding get_recommended_capacity next_pow_2 smear
five = refl

insert_range_contents_example :
    Leaves (insert_range working 1 (1 ∷ 2 ∷ []) full) (7 ∷ 1 ∷ 2 ∷ 8 ∷ 9 ∷ [])
insert_range_contents_example =
    insert_range_contents working full (7 ∷ []) (1 ∷ 2 ∷ []) (8 ∷ 9 ∷ [])
      (λ _. refl, refl, λ _. refl) (refl, (refl, (refl, (refl, tt)))) (omega arith)
      (omega (arith, five)) (omega arith)

emplace_contents_example : Leaves (emplace working 1 (inside 2) roomy) (7 ∷ 9 ∷ 8 ∷ 9 ∷ [])
emplace_contents_example =
    emplace_contents working roomy (7 ∷ []) (8 ∷ 9 ∷ []) (inside 2) 9 (λ _. refl, refl, λ _. refl)
      (refl, (refl, (refl, (refl, tt)))) refl (omega (arith, four)) (omega arith)

emplace_back_contents_example : Leaves (emplace_back working (outside 5) full) (7 ∷ 8 ∷ 9 ∷ 5 ∷ [])
emplace_back_contents_example =
    emplace_back_contents working full (7 ∷ 8 ∷ 9 ∷ []) (outside 5) 5 (λ _. refl, refl, λ _. refl)
      (refl, (refl, (refl, (refl, tt)))) (inl refl) (omega arith) refl (inr refl)
      (omega (arith, four)) (omega arith)

emplace_back_of_own_element_example :
    ((emplace_back working (inside 0) full).0 ≡ ok tt)
    × ((emplace_back working (inside 0) full).1.size ≡ 4)
    × ((emplace_back working (inside 0) full).1.block 3 ≡ none)
emplace_back_of_own_element_example =
    emplace_back_of_own_element working full (7 ∷ 8 ∷ 9 ∷ []) 0 7 (λ _. refl, refl, λ _. refl)
      (refl, (refl, (refl, (refl, tt)))) (inl refl) refl (omega arith) refl (omega (arith, four))
      (omega arith)

erase_contents_example : Leaves (erase working 1 1 roomy) (7 ∷ 9 ∷ [])
erase_contents_example =
    erase_contents working roomy (7 ∷ []) (8 ∷ []) (9 ∷ []) (λ _. refl, refl, λ _. refl)
      (refl, (refl, (refl, (refl, tt)))) (omega arith)

reserve_contents_example :
    Leaves (reserve working 10 full) (7 ∷ 8 ∷ 9 ∷ [])
    × (10 ≤ (reserve working 10 full).1.capacity)
    × (3 ≤ (reserve working 10 full).1.capacity)
reserve_contents_example =
    reserve_contents working full (7 ∷ 8 ∷ 9 ∷ []) 10 (λ _. refl, refl, λ _. refl)
      (refl, (refl, (refl, (refl, tt)))) (inl refl) (omega arith) (omega arith)

insert_range_failures_example :
    (1000 < get_recommended_capacity 4
      → (insert_range out_of_memory 0 (1 ∷ []) full).0 ≡ throws length_error)
    × ((errno : ℕ)
        → get_recommended_capacity 4 ≤ 1000
        → some 12 ≡ some errno
        → ((errno ≡ 12
              → (insert_range out_of_memory 0 (1 ∷ []) full).0 ≡ throws transaction_out_of_memory)
            × (errno ≢ 12
                → (insert_range out_of_memory 0 (1 ∷ []) full).0 ≡ throws transaction_alloc_error)))
insert_range_failures_example =
    insert_range_failures out_of_memory full 0 (1 ∷ []) (λ _. refl) (omega arith)
      (omega (arith, four))
