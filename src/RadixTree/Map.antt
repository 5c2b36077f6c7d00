-- ===== src/RadixTree/Map.antt =====
-- include/libpmemobj++/experimental/radix_tree.hpp: the map with its `root` and `size_`.
use libpmemobj_cpp.Common.{ℕ, Bool, if◌then◌else◌, none, some, []}
use libpmemobj_cpp.Common.Words.{add64, sub64}
use libpmemobj_cpp.RadixTree.{Key, Leaf, Tree, leaf, internal_find, internal_emplace}
use libpmemobj_cpp.RadixTree.Erase.{locate, store_up, erase}

pub record RadixMap (V : Type 0) : Type 0 where
  pub root : Tree V
  pub size : ℕ

module _ {V : Type 0} where
  -- `try_emplace`. The function that makes the leaf is called where a leaf is stored, and counts it.
  unfoldable pub try_emplace : Leaf V → RadixMap V → RadixMap V × Bool
  unfolding internal_emplace
  try_emplace l m =
      let (root, is_new) = internal_emplace l m.root in
      (record { root = root; size = if is_new then add64 m.size 1 else m.size }, is_new)

  -- `assign_val` of the iterator to the leaf with the key
  unfoldable pub assign_val : Key → V → Tree V → Tree V
  unfolding locate store_up
  assign_val k v root = elim (locate k [] root) [
    | none ↦ root
    | some found ↦ store_up found.1 (leaf (record { key = found.0.key; value = v }))
  ]

  unfoldable pub insert_or_assign : Leaf V → RadixMap V → RadixMap V × Bool
  unfolding try_emplace assign_val
  insert_or_assign l m =
      let (inserted, is_new) = try_emplace l m in
      (
        record {
          root = if is_new then inserted.root else assign_val l.key l.value inserted.root;
          size = inserted.size;
        },
        is_new,
      )

  unfoldable pub count : Key → RadixMap V → ℕ
  unfolding internal_find
  count k m = elim (internal_find k m.root) [ none ↦ 0 | some l ↦ 1 ]

  -- `erase(k)`
  unfoldable pub erase_key : Key → RadixMap V → RadixMap V × ℕ
  unfolding erase
  erase_key k m =
      let (root, n) = erase k m.root in (record { root = root; size = sub64 m.size n }, n)
