-- ===== src/RadixTree/Sizes.antt =====
-- `size_` counts the leaves of the tree.
use libpmemobj_cpp.Common.{
  ℕ, ◌+◌, ◌*◌, ◌≤◌, ◌<◌, ◌≡◌, ◌≢◌, refl, ap, sym, ◌∙◌, subst, arith, false, ◌⊎◌, inl, inr,
  Bool-cases, some, ltb→lt,
}
use libpmemobj_cpp.Common.Cases.{some-injective}
use libpmemobj_cpp.RadixTree.{
  Key, Leaf, slnodes, slice_index, Tree, null, leaf, node, is_null, put, internal_find, embeds,
  descend, goes_on, new_subtree,
}
use libpmemobj_cpp.RadixTree.Slices.{nibble, position, slice_index-nibble}
use libpmemobj_cpp.RadixTree.Keys.{AreBytes, Divergence, goes_on_lem}
use libpmemobj_cpp.RadixTree.Shape.{All, IsNode, IsTree}
use libpmemobj_cpp.RadixTree.Descent.{null_of}
use libpmemobj_cpp.RadixTree.Path.{goes_on_byte, store_below}
use libpmemobj_cpp.RadixTree.Search.{Behind}
use libpmemobj_cpp.RadixTree.Place.{IsFresh, over_leaf, over_node}
use libpmemobj_cpp.RadixTree.NewNodes.{slice_index_small}
use libpmemobj_cpp.RadixTree.Erase.{collapse}
use libpmemobj_cpp.RadixTree.Removal.{is_leaf, remove, Tree-cases, not_leaf, way}
use libpmemobj_cpp.RadixTree.Counting.{
  total, total-zero, leaves, leaves-put, leaves-null, leaves-collapse,
}

module _ {V : Type 0} where
  abbrev Grown : Leaf V → Leaf V → ℕ → ℕ → Tree V → Type 0
  Grown l m sh s t = leaves (new_subtree l m.key s sh t) ≡ leaves t + 1

  -- A node with a subtree at `i` alone.
  leaves_alone :
      (i : ℕ) (t : Tree V)
      → i < slnodes
      → total (λ j. leaves (put i t (λ _. null) j)) slnodes ≡ leaves t
  unfolding leaves
  leaves_alone i t p =
      omega (arith, leaves-put i t (λ _. null) p, total-zero (λ (j : ℕ). 0) slnodes (λ j q. refl))

  module _ (l m : Leaf V) (hl : AreBytes l.key) (hm : AreBytes m.key) (sh d : ℕ) where
    grows_at_end :
        (t : Tree V)
        → is_null t ≡ false
        → d ≡ 2 * l.key.size
        → embeds l.key.size t ≡ false
        → All (Behind l.key.size (position l.key.size 4) (nibble m.key (position l.key.size 4))) t
        → Grown l m sh l.key.size t
    unfolding new_subtree leaves
    grows_at_end t some_t at e h =
        let i = slice_index (m.key.byte l.key.size) 4 in
        let made : new_subtree l m.key l.key.size sh t
            ≡ node l.key.size 4 (leaf l) (put i t (λ _. null)) =
          ground (arith, some_t, e) in
        ap leaves made
        ∙ omega (arith, leaves_alone i t (slice_index_small (m.key.byte l.key.size) 4))

    grows_at_split :
        (diff : ℕ) (t : Tree V)
        → is_null t ≡ false
        → d ≡ position diff sh
        → (sh ≡ 4) ⊎ (sh ≡ 0)
        → diff < l.key.size
        → diff < m.key.size
        → nibble l.key (position diff sh) ≢ nibble m.key (position diff sh)
        → All (Behind diff (position diff sh) (nibble m.key (position diff sh))) t
        → Grown l m sh diff t
    unfolding new_subtree leaves
    grows_at_split diff t some_t at half p q apart h =
        let i = slice_index (m.key.byte diff) sh in
        let a = slice_index (l.key.byte diff) sh in
        let em = slice_index-nibble m.key diff sh (hm diff) half in
        let el = slice_index-nibble l.key diff sh (hl diff) half in
        let old = put i t (λ _. null) in
        let made : new_subtree l m.key diff sh t ≡ node diff sh null (put a (leaf l) old) =
          ground (arith, some_t) in
        let off : i ≢ a = λ z. apart (sym el ∙ sym z ∙ em) in
        let gone : leaves (old a) ≡ 0 = leaves-null (old a) (ground (arith, off)) in
        ap leaves made
        ∙ omega (
          arith,
          gone,
          leaves-put a (leaf l) old (slice_index_small (l.key.byte diff) sh),
          leaves_alone i t (slice_index_small (m.key.byte diff) sh),
        )

    grows_under_leaf :
        d ≡ 2 * m.key.size → m.key.size < l.key.size → Grown l m sh m.key.size (leaf m)
    unfolding new_subtree leaves
    grows_under_leaf at p =
        let a = slice_index (l.key.byte m.key.size) 4 in
        let made : new_subtree l m.key m.key.size sh (leaf m)
            ≡ node m.key.size 4 (leaf m) (put a (leaf l) (λ _. null)) =
          ground arith in
        ap leaves made
        ∙ omega (arith, leaves_alone a (leaf l) (slice_index_small (l.key.byte m.key.size) 4))

    grows_in_entry :
        (child : ℕ → Tree V)
        → d ≡ 2 * l.key.size
        → Grown l m sh l.key.size (node l.key.size 4 null child)
    unfolding new_subtree leaves
    grows_in_entry child at =
        let made : new_subtree l m.key l.key.size sh (node l.key.size 4 null child)
            ≡ node l.key.size 4 (leaf l) child =
          ground arith in
        ap leaves made ∙ omega arith

  module _ (l m : Leaf V) (diff sh d limit : ℕ) (hl : AreBytes l.key) (hm : AreBytes m.key)
      (h : Divergence l.key m.key diff sh d limit) (fresh : IsFresh l m diff) where
    Grown-leaf : Grown l m sh diff (leaf m)
    Grown-leaf =
        over_leaf l m diff sh d limit h fresh (Grown l m sh) (grows_at_end l m hl hm sh d)
          (grows_at_split l m hl hm sh d diff) (grows_under_leaf l m hl hm sh d)
          (grows_in_entry l m hl hm sh d)

    Grown-node :
        (slot : Tree V → Tree V) (byte bit : ℕ) (entry : Tree V) (child : ℕ → Tree V)
        → IsNode byte bit entry child
        → (descend l.key slot (node byte bit entry child)).0 ≡ some m
        → limit ≤ position byte bit
        → Grown l m sh diff (node byte bit entry child)
    Grown-node =
        over_node l m diff sh d limit h fresh (Grown l m sh) (grows_at_end l m hl hm sh d)
          (grows_at_split l m hl hm sh d diff) (grows_under_leaf l m hl hm sh d)
          (grows_in_entry l m hl hm sh d)

    pub leaves-store_below :
        (t : Tree V) (slot : Tree V → Tree V)
        → IsTree t
        → (descend l.key slot t).0 ≡ some m
        → leaves (store_below l m.key diff sh t) ≡ leaves t + 1
    unfolding store_below new_subtree descend leaves
    leaves-store_below null slot s found = refl
    leaves-store_below (leaf old) slot s found =
        subst (λ x. leaves (store_below l m.key diff sh (leaf x)) ≡ 2) (sym (some-injective found))
          Grown-leaf
    leaves-store_below (node byte bit entry child) slot s found =
        let n = node byte bit entry child in
        let pos = position byte bit in
        let i = slice_index (l.key.byte byte) bit in
        let slot_i = λ (x : Tree V). slot (node byte bit entry (put i x child)) in
        let on = goes_on_lem l.key m.key diff sh d limit h byte bit entry child s.0.half in
        elim (Bool-cases (goes_on n diff sh)) [
          | inr stop ↦
              let made : store_below l m.key diff sh n ≡ new_subtree l m.key diff sh n =
                ground (arith, stop) in
              ap leaves made
              ∙ Grown-node slot byte bit entry child s.0 found (ground (arith, on, stop))
          | inl more ↦
              let inside =
                goes_on_byte l.key m.key diff sh d limit byte bit h
                  (ltb→lt pos limit (sym on ∙ more)) in
              let deeper = store_below l m.key diff sh (child i) in
              let made : store_below l m.key diff sh n ≡ node byte bit entry (put i deeper child) =
                ground (arith, more) in
              let grown : leaves deeper ≡ leaves (child i) + 1 =
                elim (Bool-cases (is_null (child i))) [
                  | inl q ↦
                      subst (λ x. leaves (store_below l m.key diff sh x) ≡ leaves x + 1)
                        (sym (null_of (child i) q)) refl
                  | inr q ↦
                      leaves-store_below (child i) slot_i (s.2 i) (ground (arith, found, inside, q))
                ] in
              ap leaves made
              ∙ omega (
                arith,
                grown,
                leaves-put i deeper child (slice_index_small (l.key.byte byte) bit),
              )
        ]

  pub leaves-remove :
      (k : Key) (t : Tree V) (l : Leaf V)
      → AreBytes k
      → IsTree t
      → internal_find k t ≡ some l
      → leaves (remove k t) + 1 ≡ leaves t
  unfolding remove internal_find leaves
  leaves-remove k null l hk h found = absurd (ground (arith, found))
  leaves-remove k (leaf e) l hk h found = refl
  leaves-remove k (node byte bit entry child) l hk h found =
      let n = node byte bit entry child in
      let i = slice_index (k.byte byte) bit in
      let low = slice_index_small (k.byte byte) bit in
      elim (way k byte bit entry child l h.0 found) [
        | inl (at, (e, is, same)) ↦
            let made : remove k n ≡ collapse (node byte bit null child) = ground (arith, at) in
            omega (arith, ap leaves made, leaves-collapse byte bit null child, ap leaves is)
        | inr (at, inside, below) ↦ elim (Tree-cases (child i)) [
          | inl e ↦ absurd (ground (arith, below, ap (internal_find k) e))
          | inr (inl (e, is)) ↦
              let made : remove k n ≡ collapse (node byte bit entry (put i null child)) =
                ground (arith, at, ap is_leaf is) in
              omega (
                arith,
                ap leaves made,
                leaves-collapse byte bit entry (put i null child),
                leaves-put i null child low,
                ap leaves is,
              )
          | inr (inr is) ↦
              let rest = remove k (child i) in
              let made : remove k n ≡ node byte bit entry (put i rest child) =
                ground (arith, at, not_leaf (child i) is) in
              omega (
                arith,
                ap leaves made,
                leaves-put i rest child low,
                leaves-remove k (child i) l hk (h.2 i) below,
              )
        ]
      ]
