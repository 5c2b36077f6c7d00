-- ===== src/RadixTree/Preservation.antt =====
-- `internal_emplace` keeps the shape of a radix tree.
use libpmemobj_cpp.Common.{
  ℕ, ◌+◌, ◌≤◌, ◌<◌, ◌≡◌, refl, sym, ◌∙◌, subst, arith, Bool, true, false, inl, inr, Bool-cases,
  some, ltb→lt,
}
use libpmemobj_cpp.Common.Cases.{some-injective}
use libpmemobj_cpp.RadixTree.{
  Leaf, slice_index, prefix_diff, bit_diff, Tree, null, leaf, node, is_null, put, internal_find,
  descend, goes_on, new_subtree, internal_emplace,
}
use libpmemobj_cpp.RadixTree.Slices.{position, slice_index-nibble}
use libpmemobj_cpp.RadixTree.Keys.{AreBytes, Divergence, goes_on_lem}
use libpmemobj_cpp.RadixTree.Shape.{All, All-imp, Agree, Below, IsNode, IsTree}
use libpmemobj_cpp.RadixTree.Descent.{null_of, descend-All}
use libpmemobj_cpp.RadixTree.Path.{goes_on_byte, store_below}
use libpmemobj_cpp.RadixTree.Place.{IsFresh, over_leaf, over_node}
use libpmemobj_cpp.RadixTree.NewNodes.{put_lem, make_node, store_below-All, store_below_some}
use libpmemobj_cpp.RadixTree.Kept.{Kept, keep_at_end, keep_at_split, keep_under_leaf, keep_in_entry}
use libpmemobj_cpp.RadixTree.Refinement.{is_some, All-bytes, emplaced, not_found-IsFresh}

module _ {V : Type 0} where
  module _ (l m : Leaf V) (diff sh d limit : ℕ) (hl : AreBytes l.key) (hm : AreBytes m.key)
      (h : Divergence l.key m.key diff sh d limit) (fresh : IsFresh l m diff) where
    limit_near : (d ≤ limit) × (limit ≤ d + 1)
    limit_near = elim h.split [
      | inl (whole, sh8, at, edge) ↦ (omega (arith, edge), omega (arith, edge))
      | inr (kin, lin, half, at, edge, apart) ↦ (omega (arith, edge), omega (arith, edge))
    ]

    Kept-leaf : Kept l m sh d hl hm h.below diff (leaf m)
    Kept-leaf =
        over_leaf l m diff sh d limit h fresh (Kept l m sh d hl hm h.below)
          (keep_at_end l m sh d hl hm h.below) (keep_at_split l m sh d hl hm h.below diff)
          (keep_under_leaf l m sh d hl hm h.below) (keep_in_entry l m sh d hl hm h.below)

    Kept-node :
        (slot : Tree V → Tree V) (byte bit : ℕ) (entry : Tree V) (child : ℕ → Tree V)
        → IsNode byte bit entry child
        → (descend l.key slot (node byte bit entry child)).0 ≡ some m
        → limit ≤ position byte bit
        → Kept l m sh d hl hm h.below diff (node byte bit entry child)
    Kept-node =
        over_node l m diff sh d limit h fresh (Kept l m sh d hl hm h.below)
          (keep_at_end l m sh d hl hm h.below) (keep_at_split l m sh d hl hm h.below diff)
          (keep_under_leaf l m sh d hl hm h.below) (keep_in_entry l m sh d hl hm h.below)

    kept_below :
        (t : Tree V) (slot : Tree V → Tree V)
        → IsTree t
        → (descend l.key slot t).0 ≡ some m
        → IsTree (store_below l m.key diff sh t)
    unfolding store_below new_subtree descend
    kept_below null slot s found = hl
    kept_below (leaf old) slot s found =
        subst (λ x. IsTree (store_below l m.key diff sh (leaf x))) (sym (some-injective found))
          (Kept-leaf hm (λ q r. refl))
    kept_below (node byte bit entry child) slot s found =
        let n = node byte bit entry child in
        let pos = position byte bit in
        let i = slice_index (l.key.byte byte) bit in
        let slot_i = λ (x : Tree V). slot (node byte bit entry (put i x child)) in
        let on = goes_on_lem l.key m.key diff sh d limit h byte bit entry child s.0.half in
        let agree =
          descend-All (λ x. All (λ y. Agree pos x.key y.key) n) l.key slot n m found s.0.agreed in
        elim (Bool-cases (goes_on n diff sh)) [
          | inr stop ↦
              let past : limit ≤ pos = ground (arith, on, stop) in
              let made : store_below l m.key diff sh n ≡ new_subtree l m.key diff sh n =
                ground (arith, stop) in
              subst IsTree (sym made) (
                Kept-node slot byte bit entry child s.0 found past s (
                  All-imp (λ x. Agree pos m.key x.key) (λ x. Agree d m.key x.key)
                    (λ x a q r. a q (omega (arith, r, past, limit_near))) n agree))
          | inl more ↦
              let before : pos < limit = ltb→lt pos limit (sym on ∙ more) in
              let inside = goes_on_byte l.key m.key diff sh d limit byte bit h before in
              let deeper = store_below l m.key diff sh (child i) in
              let made : store_below l m.key diff sh n ≡ node byte bit entry (put i deeper child) =
                ground (arith, more) in
              let mine : Agree pos m.key l.key =
                λ q r. sym (h.below q (omega (arith, r, before, limit_near))) in
              let el = slice_index-nibble l.key byte bit (hl byte) s.0.half in
              let shape : IsTree deeper = elim (Bool-cases (is_null (child i))) [
                | inl q ↦
                    subst (λ x. IsTree (store_below l m.key diff sh x)) (sym (null_of (child i) q))
                      hl
                | inr q ↦ kept_below (child i) slot_i (s.2 i) (ground (arith, found, inside, q))
              ] in
              let (c, small, some_c) = s.0.some_child in
              subst IsTree (sym made) (
                make_node m.key byte bit entry (put i deeper child) s.0.half s.0.embedded
                    (put_lem (λ j. All (Below byte bit j)) i deeper child
                      (store_below-All (Below byte bit i) l m.key diff sh (child i) (inside, sym el)
                        (s.0.branches i))
                      s.0.branches)
                    (
                      agree.0,
                      put_lem (λ _. All (λ x. Agree pos m.key x.key)) i deeper child
                          (store_below-All (λ x. Agree pos m.key x.key) l m.key diff sh (child i)
                            mine (agree.1 i))
                          agree.1,
                    )
                    (c, small, ground (arith, some_c, store_below_some l m.key diff sh (child i)))
                    (elim s.0.two [
                      | inl e ↦ inl e
                      | inr (x, y, sx, sy, apart, ex, ey) ↦
                          let some_i = store_below_some l m.key diff sh (child i) in
                          inr (
                            x,
                            y,
                            sx,
                            sy,
                            apart,
                            ground (arith, ex, some_i),
                            ground (arith, ey, some_i),
                          )
                    ]),
                s.1,
                put_lem (λ _. IsTree) i deeper child shape s.2,
              )
        ]

  kept_in :
      (l : Leaf V) (t : Tree V)
      → AreBytes l.key
      → IsTree t
      → is_null t ≡ false
      → IsTree (internal_emplace l t).0
  kept_in l t hl h some_t =
      let (m, d, limit, found, div, result) = emplaced l t hl h some_t in
      let hm = descend-All (λ x. AreBytes x.key) l.key (λ n. n) t m found (All-bytes t h) in
      let diff = prefix_diff l.key m.key in
      let sh = bit_diff m.key l.key diff in
      elim (Bool-cases (is_some (internal_find l.key t))) [
        | inl e ↦
            let kept : internal_emplace l t ≡ (t, false) = ground (arith, result, e) in
            subst (λ (r : Tree V × Bool). IsTree r.0) (sym kept) h
        | inr e ↦
            let stored : internal_emplace l t ≡ (store_below l m.key diff sh t, true) =
              ground (arith, result, e) in
            subst (λ (r : Tree V × Bool). IsTree r.0) (sym stored)
              (kept_below l m diff sh d limit hl hm div
                (not_found-IsFresh l m t (λ n. n) hl h found e) t (λ n. n) h found)
      ]

  -- `internal_emplace` of a leaf, with a key of bytes, into a radix tree makes a radix tree: every
  -- node branches on the upper or the lower half of a byte, has one child at least, holds in child
  -- `i` keys with the half byte `i` there and in its entry a key that ends at its byte, and all
  -- keys below it agree before that place, and it has two subtrees at least.
  pub internal_emplace-IsTree :
      (l : Leaf V) (t : Tree V) → AreBytes l.key → IsTree t → IsTree (internal_emplace l t).0
  unfolding internal_emplace
  internal_emplace-IsTree l null hl h = hl
  internal_emplace-IsTree l (leaf old) hl h = kept_in l (leaf old) hl h refl
  internal_emplace-IsTree l (node byte bit entry child) hl h =
      kept_in l (node byte bit entry child) hl h refl
