-- ===== src/RadixTree/Kept.antt =====
-- The subtree that `internal_emplace` stores has the shape of a radix tree.
use libpmemobj_cpp.Common.{
  ℕ, ◌*◌, ◌<◌, ◌≡◌, ◌≢◌, refl, sym, ◌∙◌, subst, arith, false, ◌⊎◌, inl, inr,
}
use libpmemobj_cpp.RadixTree.{
  Leaf, slice_index, Tree, null, leaf, node, is_null, put, new_subtree, embeds,
}
use libpmemobj_cpp.RadixTree.Slices.{nibble, position, slice_index-nibble}
use libpmemobj_cpp.RadixTree.Keys.{AreBytes}
use libpmemobj_cpp.RadixTree.Shape.{All, Agree, Below, IsTree}
use libpmemobj_cpp.RadixTree.Search.{Behind}
use libpmemobj_cpp.RadixTree.NewNodes.{slice_index_small, put_lem, put_here, make_node}

module _ {V : Type 0} where
  module _ (l m : Leaf V) (sh d : ℕ) (hl : AreBytes l.key) (hm : AreBytes m.key)
      (same : Agree d l.key m.key) where
    abbrev pub Kept : ℕ → Tree V → Type 0
    Kept s t = IsTree t → All (λ x. Agree d m.key x.key) t → IsTree (new_subtree l m.key s sh t)

    pub keep_at_end :
        (t : Tree V)
        → is_null t ≡ false
        → d ≡ 2 * l.key.size
        → embeds l.key.size t ≡ false
        → All (Behind l.key.size (position l.key.size 4) (nibble m.key (position l.key.size 4))) t
        → Kept l.key.size t
    unfolding new_subtree
    keep_at_end t some_t at e h shape agree =
        let diff = l.key.size in
        let i = slice_index (m.key.byte diff) 4 in
        let em = slice_index-nibble m.key diff 4 (hm diff) (inl refl) in
        let here : d ≡ position diff 4 = omega (arith, at) in
        let no_child = λ (i : ℕ). null in
        let n = node diff 4 (leaf l) (put i t no_child) in
        let made : new_subtree l m.key diff sh t ≡ n = ground (arith, some_t, e) in
        subst IsTree (sym made) (
          make_node m.key diff 4 (leaf l) (put i t no_child) (inl refl) (inr (l, refl, refl, refl))
              (put_lem (λ j. All (Below diff 4 j)) i t no_child
                (subst (λ i. All (Below diff 4 i) t) (sym em) h) (λ _. tt))
              (subst (λ p. All (λ x. Agree p m.key x.key) n) here
                (
                  λ q r. sym (same q r),
                  put_lem (λ _. All (λ x. Agree d m.key x.key)) i t no_child agree (λ _. tt),
                ))
              (i, slice_index_small (m.key.byte diff) 4, put_here i t no_child some_t) (inl refl),
          hl,
          put_lem (λ _. IsTree) i t no_child shape (λ _. tt),
        )

    pub keep_at_split :
        (diff : ℕ) (t : Tree V)
        → is_null t ≡ false
        → d ≡ position diff sh
        → (sh ≡ 4) ⊎ (sh ≡ 0)
        → diff < l.key.size
        → diff < m.key.size
        → nibble l.key (position diff sh) ≢ nibble m.key (position diff sh)
        → All (Behind diff (position diff sh) (nibble m.key (position diff sh))) t
        → Kept diff t
    unfolding new_subtree
    keep_at_split diff t some_t at half p q apart h shape agree =
        let i = slice_index (m.key.byte diff) sh in
        let a = slice_index (l.key.byte diff) sh in
        let em = slice_index-nibble m.key diff sh (hm diff) half in
        let el = slice_index-nibble l.key diff sh (hl diff) half in
        let no_child = λ (i : ℕ). null in
        let old_child = put i t no_child in
        let child = put a (leaf l) old_child in
        let n = node diff sh null child in
        let made : new_subtree l m.key diff sh t ≡ n = ground (arith, some_t) in
        subst IsTree (sym made) (
          make_node m.key diff sh null child half (inl refl)
              (put_lem (λ j. All (Below diff sh j)) a (leaf l) old_child (p, sym el)
                (put_lem (λ j. All (Below diff sh j)) i t no_child
                  (subst (λ i. All (Below diff sh i) t) (sym em) h) (λ _. tt)))
              (subst (λ p. All (λ x. Agree p m.key x.key) n) at
                (
                  tt,
                  put_lem (λ _. All (λ x. Agree d m.key x.key)) a (leaf l) old_child
                      (λ q r. sym (same q r))
                      (put_lem (λ _. All (λ x. Agree d m.key x.key)) i t no_child agree (λ _. tt)),
                ))
              (a, slice_index_small (l.key.byte diff) sh, put_here a (leaf l) old_child refl)
              (inr (
                a,
                i,
                slice_index_small (l.key.byte diff) sh,
                slice_index_small (m.key.byte diff) sh,
                λ z. apart (sym el ∙ z ∙ em),
                put_here a (leaf l) old_child refl,
                ground (arith, some_t),
              )),
          tt,
          put_lem (λ _. IsTree) a (leaf l) old_child hl
              (put_lem (λ _. IsTree) i t no_child shape (λ _. tt)),
        )

    pub keep_under_leaf : d ≡ 2 * m.key.size → m.key.size < l.key.size → Kept m.key.size (leaf m)
    unfolding new_subtree
    keep_under_leaf at p shape agree =
        let diff = m.key.size in
        let a = slice_index (l.key.byte diff) 4 in
        let el = slice_index-nibble l.key diff 4 (hl diff) (inl refl) in
        let here : d ≡ position diff 4 = omega (arith, at) in
        let no_child = λ (i : ℕ). null in
        let child = put a (leaf l) no_child in
        let n = node diff 4 (leaf m) child in
        let made : new_subtree l m.key diff sh (leaf m) ≡ n = ground arith in
        subst IsTree (sym made) (
          make_node m.key diff 4 (leaf m) child (inl refl) (inr (m, refl, refl, refl))
              (put_lem (λ j. All (Below diff 4 j)) a (leaf l) no_child (p, sym el) (λ _. tt))
              (subst (λ p. All (λ x. Agree p m.key x.key) n) here
                (
                  agree,
                  put_lem (λ _. All (λ x. Agree d m.key x.key)) a (leaf l) no_child
                      (λ q r. sym (same q r)) (λ _. tt),
                ))
              (a, slice_index_small (l.key.byte diff) 4, put_here a (leaf l) no_child refl)
              (inl refl),
          hm,
          put_lem (λ _. IsTree) a (leaf l) no_child hl (λ _. tt),
        )

    pub keep_in_entry :
        (child : ℕ → Tree V) → d ≡ 2 * l.key.size → Kept l.key.size (node l.key.size 4 null child)
    unfolding new_subtree
    keep_in_entry child at shape agree =
        let diff = l.key.size in
        let here : d ≡ position diff 4 = omega (arith, at) in
        let made : new_subtree l m.key diff sh (node diff 4 null child)
            ≡ node diff 4 (leaf l) child =
          ground arith in
        subst IsTree (sym made) (
          make_node m.key diff 4 (leaf l) child (inl refl) (inr (l, refl, refl, refl))
              shape.0.branches
              (subst (λ p. All (λ x. Agree p m.key x.key) (node diff 4 (leaf l) child)) here
                (λ q r. sym (same q r), agree.1))
              shape.0.some_child (inl refl),
          hl,
          shape.2,
        )
