-- ===== src/RadixTree/Tests.antt =====
-- A tree with the keys "ab", "a" and "cd".
use libpmemobj_cpp.Common.{
  ℕ, ◌<◌, ◌≡◌, refl, arith, ltb, not, if◌then◌else◌, none, some, List, [], ◌∷◌,
}
use libpmemobj_cpp.Math.{bit_length, mssb_index}
use libpmemobj_cpp.RadixTree.{
  Leaf, Tree, null, slice_index, diff_loop, prefix_diff, bit_diff, compares_equal, keys_equal,
  path_length_equal, internal_find, first_child, any_leftmost_leaf, descend, goes_on, follow_path,
  new_subtree, internal_emplace,
}
use libpmemobj_cpp.RadixTree.Keys.{AreBytes}
use libpmemobj_cpp.RadixTree.Shape.{IsTree}
use libpmemobj_cpp.RadixTree.Refinement.{is_some, inserted, internal_emplace_refines}
use libpmemobj_cpp.RadixTree.Preservation.{internal_emplace-IsTree}
use libpmemobj_cpp.RadixTree.Erase.{
  locate, one_child, collapse, store_up, store_child, erase_at, erase,
}
use libpmemobj_cpp.RadixTree.EraseRefinement.{erase_refines}
use libpmemobj_cpp.RadixTree.ErasePreservation.{erase-IsTree}
use libpmemobj_cpp.RadixTree.Map.{try_emplace, insert_or_assign, assign_val, erase_key}
use libpmemobj_cpp.RadixTree.Run.{IsMap}
use libpmemobj_cpp.RadixTree.History.{
  Operation, emplacing, assigning, erasing, perform, perform_all, empty_map, promised_all,
  operations_refine,
}

abbrev two_bytes : ℕ → ℕ → ℕ → ℕ
two_bytes a b i = if ltb 0 i then b else a

abbrev ab : Leaf ℕ
ab = record { key = record { size = 2; byte = two_bytes 97 98 }; value = 1 }

abbrev a : Leaf ℕ
a = record { key = record { size = 1; byte = two_bytes 97 0 }; value = 2 }

abbrev cd : Leaf ℕ
cd = record { key = record { size = 2; byte = two_bytes 99 100 }; value = 3 }

abbrev tree : Tree ℕ
tree = (internal_emplace cd (internal_emplace a (internal_emplace ab null).0).0).0

two_bytes_small : (x y : ℕ) → x < 256 → y < 256 → (i : ℕ) → two_bytes x y i < 256
two_bytes_small x y p q i = ground arith

ab_bytes : AreBytes ab.key
ab_bytes = two_bytes_small 97 98 (omega arith) (omega arith)

a_bytes : AreBytes a.key
a_bytes = two_bytes_small 97 0 (omega arith) (omega arith)

cd_bytes : AreBytes cd.key
cd_bytes = two_bytes_small 99 100 (omega arith) (omega arith)

pair-IsTree : IsTree (internal_emplace a (internal_emplace ab null).0).0
pair-IsTree =
    internal_emplace-IsTree a (internal_emplace ab null).0 a_bytes
      (internal_emplace-IsTree ab null ab_bytes tt)

internal_emplace-IsTree_example : IsTree tree
internal_emplace-IsTree_example =
    internal_emplace-IsTree cd (internal_emplace a (internal_emplace ab null).0).0 cd_bytes
      pair-IsTree

find_a : internal_find a.key tree ≡ some a
unfolding internal_emplace internal_find descend any_leftmost_leaf first_child follow_path goes_on
    new_subtree prefix_diff diff_loop bit_diff mssb_index bit_length slice_index path_length_equal
    keys_equal compares_equal
find_a = refl

erase_a : internal_find a.key (erase a.key tree).0 ≡ none
unfolding internal_emplace internal_find descend any_leftmost_leaf first_child follow_path goes_on
    new_subtree prefix_diff diff_loop bit_diff mssb_index bit_length slice_index path_length_equal
    keys_equal compares_equal erase locate one_child collapse store_up store_child erase_at
erase_a = refl

erase_a_keeps : internal_find ab.key (erase a.key tree).0 ≡ some ab
unfolding internal_emplace internal_find descend any_leftmost_leaf first_child follow_path goes_on
    new_subtree prefix_diff diff_loop bit_diff mssb_index bit_length slice_index path_length_equal
    keys_equal compares_equal erase locate one_child collapse store_up store_child erase_at
erase_a_keeps = refl

internal_emplace_refines_example :
    ((internal_emplace cd (internal_emplace a (internal_emplace ab null).0).0).1
      ≡ not (is_some (internal_find cd.key (internal_emplace a (internal_emplace ab null).0).0)))
    × (internal_find a.key tree
        ≡ inserted cd
            (λ k. internal_find k (internal_emplace a (internal_emplace ab null).0).0)
            a.key)
internal_emplace_refines_example =
    internal_emplace_refines cd (internal_emplace a (internal_emplace ab null).0).0 a.key cd_bytes
      a_bytes pair-IsTree

erase_refines_example :
    ((erase a.key tree).1 ≡ (if is_some (internal_find a.key tree) then 1 else 0))
    × (internal_find ab.key (erase a.key tree).0
        ≡ (if keys_equal ab.key a.key then none else internal_find ab.key tree))
erase_refines_example =
    erase_refines a.key tree ab.key a_bytes ab_bytes internal_emplace-IsTree_example

abbrev operations : List (Operation ℕ)
operations =
    emplacing ab
    ∷ assigning a
    ∷ emplacing cd
    ∷ assigning (record { key = ab.key; value = 7 })
    ∷ erasing a.key
    ∷ []

operations_refine_example :
    IsMap (perform_all operations empty_map)
    × (internal_find ab.key (perform_all operations empty_map).root
        ≡ promised_all operations (λ k. none) ab.key)
operations_refine_example =
    operations_refine operations ab.key (ab_bytes, (a_bytes, (cd_bytes, (ab_bytes, (a_bytes, tt)))))
      ab_bytes

found_after :
    internal_find ab.key (perform_all operations empty_map).root
    ≡ some (record { key = ab.key; value = 7 })
unfolding internal_emplace internal_find descend any_leftmost_leaf first_child follow_path goes_on
    new_subtree prefix_diff diff_loop bit_diff mssb_index bit_length slice_index path_length_equal
    keys_equal compares_equal erase locate one_child collapse store_up store_child erase_at
    perform_all perform try_emplace insert_or_assign assign_val erase_key
found_after = refl

erase-IsTree_example : IsTree (erase a.key tree).0
erase-IsTree_example = erase-IsTree a.key tree a_bytes internal_emplace-IsTree_example
