-- ===== src/RadixTree/Without.antt =====
-- What is found in a tree without the leaf of a key.
use native.Mathlib.Decide.{ℕ_discrete}
use libpmemobj_cpp.Common.{
  ℕ, ◌≡◌, refl, ap, sym, ◌∙◌, arith, true, if◌then◌else◌, inl, inr, Bool-cases, none, some,
}
use libpmemobj_cpp.RadixTree.{
  Key, Leaf, slice_index, path_length_equal, keys_equal, Tree, null, leaf, node, put, internal_find,
}
use libpmemobj_cpp.RadixTree.Slices.{position}
use libpmemobj_cpp.RadixTree.Keys.{AreBytes, keys_equal_size}
use libpmemobj_cpp.RadixTree.Shape.{All, All-imp, Agree, Below, IsNode, IsTree}
use libpmemobj_cpp.RadixTree.NewNodes.{put_lem}
use libpmemobj_cpp.RadixTree.Insertion.{child_set}
use libpmemobj_cpp.RadixTree.Search.{Changed, find_in_node, find_null, find_leaf}
use libpmemobj_cpp.RadixTree.Erase.{collapse}
use libpmemobj_cpp.RadixTree.Collapse.{IsRemainder}
use libpmemobj_cpp.RadixTree.Removal.{
  keys_equal_both, find_collapsed, is_leaf, remove, Tree-cases, not_leaf, way,
}

module _ {V : Type 0} where
  -- After its leaf is gone, only the key is not found any more.
  leaf_gone :
      (k j : Key) (t : Tree V) (e : Leaf V)
      → t ≡ leaf e
      → keys_equal k e.key ≡ true
      → Changed k none j none (internal_find j t)
  leaf_gone k j t e is same =
      let old : internal_find j t ≡ (if keys_equal j e.key then some e else none) =
        ap (internal_find j) is ∙ find_leaf e j in
      elim (Bool-cases (keys_equal j k)) [
        | inl y ↦ ground (arith, y)
        | inr n ↦ elim (Bool-cases (keys_equal j e.key)) [
          | inl y ↦ absurd (ground (arith, n, keys_equal_both j k e.key same y))
          | inr m ↦ ground (arith, n, m, old)
        ]
      ]

  -- A node without its entry, or without a child, is a remainder.
  pub without_entry :
      (byte bit : ℕ) (entry : Tree V) (child : ℕ → Tree V)
      → IsNode byte bit entry child
      → IsRemainder byte bit null child
  without_entry byte bit entry child h = record {
    half = h.half;
    embedded = inl refl;
    branches = h.branches;
    agreed = (tt, λ i. All-imp _ _ (λ l a. (tt, a.1)) (child i) (h.agreed.1 i));
  }

  pub without_child :
      (byte bit : ℕ) (entry : Tree V) (child : ℕ → Tree V) (i : ℕ)
      → IsNode byte bit entry child
      → IsRemainder byte bit entry (put i null child)
  without_child byte bit entry child i h =
      let P = λ (l m : Leaf V). Agree (position byte bit) l.key m.key in
      let shrunk : (l : Leaf V)
          → All (P l) (node byte bit entry child)
          → All (P l) (node byte bit entry (put i null child)) =
        λ l a. (a.0, put_lem (λ _. All (P l)) i null child tt a.1) in
      record {
        half = h.half;
        embedded = h.embedded;
        branches = put_lem (λ j. All (Below byte bit j)) i null child tt h.branches;
        agreed = (
          All-imp _ _ shrunk entry h.agreed.0,
          put_lem (λ _. All (λ l. All (P l) (node byte bit entry (put i null child)))) i null child
              tt (λ j. All-imp _ _ shrunk (child j) (h.agreed.1 j)),
        );
      }

  pub find_removed :
      (k j : Key) (t : Tree V) (l : Leaf V)
      → AreBytes k
      → AreBytes j
      → IsTree t
      → internal_find k t ≡ some l
      → Changed k none j (internal_find j (remove k t)) (internal_find j t)
  unfolding remove internal_find path_length_equal
  find_removed k j null l hk hj h found = absurd (ground (arith, found))
  find_removed k j (leaf e) l hk hj h found = leaf_gone k j (leaf e) e refl (ground (arith, found))
  find_removed k j (node byte bit entry child) l hk hj h found =
      let n = node byte bit entry child in
      let i = slice_index (k.byte byte) bit in
      elim (way k byte bit entry child l h.0 found) [
        | inl (at, (e, is, same)) ↦
            let made : remove k n ≡ collapse (node byte bit null child) = ground (arith, at) in
            let old = find_in_node j byte bit entry child hj h.0.half in
            let new = find_in_node j byte bit null child hj h.0.half in
            let gone = leaf_gone k j entry e is same in
            let size : (k.size ≡ byte) × (bit ≡ 4) = ground (arith, at) in
            ap (internal_find j) made
            ∙ find_collapsed j byte bit null child hj (without_entry byte bit entry child h.0)
            ∙ elim (ℕ_discrete byte j.size) [
              | yes same_size ↦ ground (arith, old, new, gone, size, same_size, find_null j)
              | no off ↦
                  let differ = keys_equal_size j k (omega (arith, off, size)) in
                  ground (arith, old, new, differ, size, off)
            ]
        | inr (at, inside, below) ↦ elim (Tree-cases (child i)) [
          | inl e ↦ absurd (ground (arith, below, ap (internal_find k) e))
          | inr (inl (e, is)) ↦
              let same : (if keys_equal k e.key then some e else none) ≡ some l =
                ap (internal_find k) (sym is) ∙ below in
              let made : remove k n ≡ collapse (node byte bit entry (put i null child)) =
                ground (arith, at, ap is_leaf is) in
              ap (internal_find j) made
              ∙ find_collapsed j byte bit entry (put i null child) hj
                  (without_child byte bit entry child i h.0)
              ∙ child_set k none j byte bit entry null child hj hk h.0.half inside
                  (leaf_gone k j (child i) e is (ground (arith, same)))
          | inr (inr is) ↦
              let made : remove k n ≡ node byte bit entry (put i (remove k (child i)) child) =
                ground (arith, at, not_leaf (child i) is) in
              ap (internal_find j) made
              ∙ child_set k none j byte bit entry (remove k (child i)) child hj hk h.0.half inside
                  (find_removed k j (child i) l hk hj (h.2 i) below)
        ]
      ]
