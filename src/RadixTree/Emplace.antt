-- ===== src/RadixTree/Emplace.antt =====
-- What is found after `internal_emplace` has stored a leaf at the place for its key.
use libpmemobj_cpp.Common.{
  ℕ, ◌≤◌, ◌<◌, ◌≡◌, ◌≢◌, refl, sym, ◌∙◌, subst, arith, false, ◌⊎◌, inl, some,
}
use libpmemobj_cpp.RadixTree.{
  Key, Leaf, slice_index, Tree, null, leaf, node, is_null, put, internal_find, embeds, descend,
  new_subtree,
}
use libpmemobj_cpp.RadixTree.Slices.{nibble, position, slice_index-nibble}
use libpmemobj_cpp.RadixTree.Keys.{AreBytes, Divergence}
use libpmemobj_cpp.RadixTree.Shape.{All, IsNode}
use libpmemobj_cpp.RadixTree.Insertion.{split_both, split_above, split_under, entry_set}
use libpmemobj_cpp.RadixTree.Search.{Updated, Behind}
use libpmemobj_cpp.RadixTree.Place.{IsFresh, over_leaf, over_node}

module _ {V : Type 0} where
  -- What is found after the leaf has been stored over `t`.
  abbrev pub Stored : Leaf V → Leaf V → ℕ → ℕ → Tree V → Type 0
  Stored l m diff sh t =
      (j : Key)
      → AreBytes j
      → Updated l j (internal_find j (new_subtree l m.key diff sh t)) (internal_find j t)

  module _ (l m : Leaf V) (t : Tree V) (hl : AreBytes l.key) (hm : AreBytes m.key)
      (some_t : is_null t ≡ false) where
    at_end :
        (sh : ℕ)
        → embeds l.key.size t ≡ false
        → All (Behind l.key.size (position l.key.size 4) (nibble m.key (position l.key.size 4))) t
        → Stored l m l.key.size sh t
    unfolding new_subtree
    at_end sh e h j hj =
        let diff = l.key.size in
        let i = slice_index (m.key.byte diff) 4 in
        let em = slice_index-nibble m.key diff 4 (hm diff) (inl refl) in
        let made : new_subtree l m.key diff sh t ≡ node diff 4 (leaf l) (put i t (λ _. null)) =
          ground (arith, some_t, e) in
        subst (λ n. Updated l j (internal_find j n) (internal_find j t)) (sym made)
          (split_above l j i t hj (subst (λ i. All (Behind diff (position diff 4) i) t) (sym em) h))

    at_split :
        (diff sh : ℕ)
        → (sh ≡ 4) ⊎ (sh ≡ 0)
        → diff < l.key.size
        → diff < m.key.size
        → nibble l.key (position diff sh) ≢ nibble m.key (position diff sh)
        → All (Behind diff (position diff sh) (nibble m.key (position diff sh))) t
        → Stored l m diff sh t
    unfolding new_subtree
    at_split diff sh half p q apart h j hj =
        let i = slice_index (m.key.byte diff) sh in
        let a = slice_index (l.key.byte diff) sh in
        let em = slice_index-nibble m.key diff sh (hm diff) half in
        let made : new_subtree l m.key diff sh t
            ≡ node diff sh null (put a (leaf l) (put i t (λ _. null))) =
          ground (arith, some_t) in
        subst (λ n. Updated l j (internal_find j n) (internal_find j t)) (sym made)
          (split_both l j diff sh i t hj hl half p (λ z. apart (z ∙ em))
            (subst (λ i. All (Behind diff (position diff sh) i) t) (sym em) h))

  under_a_leaf :
      (l m : Leaf V) (sh : ℕ)
      → AreBytes l.key
      → m.key.size < l.key.size
      → Stored l m m.key.size sh (leaf m)
  unfolding new_subtree
  under_a_leaf l m sh hl p j hj =
      let diff = m.key.size in
      let a = slice_index (l.key.byte diff) 4 in
      let made : new_subtree l m.key diff sh (leaf m)
          ≡ node diff 4 (leaf m) (put a (leaf l) (λ _. null)) =
        ground arith in
      subst (λ n. Updated l j (internal_find j n) (internal_find j (leaf m))) (sym made)
        (split_under l m j hj hl p)

  in_entry :
      (l m : Leaf V) (sh : ℕ) (child : ℕ → Tree V)
      → Stored l m l.key.size sh (node l.key.size 4 null child)
  unfolding new_subtree
  in_entry l m sh child j hj =
      let diff = l.key.size in
      let made : new_subtree l m.key diff sh (node diff 4 null child) ≡ node diff 4 (leaf l) child =
        ground arith in
      subst (λ n. Updated l j (internal_find j n) (internal_find j (node diff 4 null child)))
        (sym made) (entry_set l j child hj)

  module _ (l m : Leaf V) (diff sh d limit : ℕ) (hl : AreBytes l.key) (hm : AreBytes m.key)
      (h : Divergence l.key m.key diff sh d limit) (fresh : IsFresh l m diff) where
    pub Stored-leaf : Stored l m diff sh (leaf m)
    Stored-leaf =
        over_leaf l m diff sh d limit h fresh (λ s t. Stored l m s sh t)
          (λ t e at. at_end l m t hl hm e sh) (λ t e at. at_split l m t hl hm e diff sh)
          (λ at. under_a_leaf l m sh hl) (λ child at. in_entry l m sh child)

    pub Stored-node :
        (slot : Tree V → Tree V) (byte bit : ℕ) (entry : Tree V) (child : ℕ → Tree V)
        → IsNode byte bit entry child
        → (descend l.key slot (node byte bit entry child)).0 ≡ some m
        → limit ≤ position byte bit
        → Stored l m diff sh (node byte bit entry child)
    Stored-node =
        over_node l m diff sh d limit h fresh (λ s t. Stored l m s sh t)
          (λ t e at. at_end l m t hl hm e sh) (λ t e at. at_split l m t hl hm e diff sh)
          (λ at. under_a_leaf l m sh hl) (λ child at. in_entry l m sh child)
