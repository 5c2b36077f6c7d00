-- ===== src/RadixTree/Run.antt =====
-- `size_` counts the leaves of the map.
use libpmemobj_cpp.Common.{
  ℕ, ◌+◌, ◌%◌, ◌^◌, ◌≡◌, refl, sym, ◌∙◌, subst, arith, Bool, true, false, if◌then◌else◌, inl, inr,
  Bool-cases, Option-cases,
}
use libpmemobj_cpp.RadixTree.{Key, Leaf, Tree, null, leaf, node, is_null, internal_find}
use libpmemobj_cpp.RadixTree.Keys.{AreBytes}
use libpmemobj_cpp.RadixTree.Shape.{IsTree}
use libpmemobj_cpp.RadixTree.Counting.{leaves}
use libpmemobj_cpp.RadixTree.Map.{RadixMap, try_emplace, erase_key}
use libpmemobj_cpp.Common.Words.{add64, sub64}
use libpmemobj_cpp.RadixTree.{prefix_diff, bit_diff, internal_emplace}
use libpmemobj_cpp.RadixTree.Path.{store_below}
use libpmemobj_cpp.RadixTree.Descent.{descend-All}
use libpmemobj_cpp.RadixTree.Refinement.{is_some, All-bytes, emplaced, not_found-IsFresh}
use libpmemobj_cpp.RadixTree.Preservation.{internal_emplace-IsTree}
use libpmemobj_cpp.RadixTree.EraseRefinement.{erase_found, erase_absent}
use libpmemobj_cpp.RadixTree.ErasePreservation.{erase-IsTree}
use libpmemobj_cpp.RadixTree.Sizes.{leaves-store_below, leaves-remove}

module _ {V : Type 0} where
  -- `size_` counts the leaves.
  pub record IsMap (m : RadixMap V) : Type 0 where
    pub shape : IsTree m.root
    pub counted : m.size ≡ leaves m.root % 2 ^ 64

  leaves_after :
      (l : Leaf V) (t : Tree V)
      → AreBytes l.key
      → IsTree t
      → is_null t ≡ false
      → leaves (internal_emplace l t).0
        ≡ (if (internal_emplace l t).1 then leaves t + 1 else leaves t)
  leaves_after l t hl h some_t =
      let (m, d, limit, found, div, result) = emplaced l t hl h some_t in
      let hm = descend-All (λ x. AreBytes x.key) l.key (λ n. n) t m found (All-bytes t h) in
      let diff = prefix_diff l.key m.key in
      let sh = bit_diff m.key l.key diff in
      elim (Bool-cases (is_some (internal_find l.key t))) [
        | inl e ↦
            let kept : internal_emplace l t ≡ (t, false) = ground (arith, result, e) in
            subst (λ (r : Tree V × Bool). leaves r.0 ≡ (if r.1 then leaves t + 1 else leaves t))
              (sym kept) refl
        | inr e ↦
            let stored : internal_emplace l t ≡ (store_below l m.key diff sh t, true) =
              ground (arith, result, e) in
            subst (λ (r : Tree V × Bool). leaves r.0 ≡ (if r.1 then leaves t + 1 else leaves t))
              (sym stored)
              (leaves-store_below l m diff sh d limit hl hm div
                (not_found-IsFresh l m t (λ n. n) hl h found e) t (λ n. n) h found)
      ]

  leaves-internal_emplace :
      (l : Leaf V) (t : Tree V)
      → AreBytes l.key
      → IsTree t
      → leaves (internal_emplace l t).0
        ≡ (if (internal_emplace l t).1 then leaves t + 1 else leaves t)
  unfolding internal_emplace leaves
  leaves-internal_emplace l null hl h = refl
  leaves-internal_emplace l (leaf old) hl h = leaves_after l (leaf old) hl h refl
  leaves-internal_emplace l (node byte bit entry child) hl h =
      leaves_after l (node byte bit entry child) hl h refl

  pub try_emplace-IsMap :
      (l : Leaf V) (m : RadixMap V) → AreBytes l.key → IsMap m → IsMap (try_emplace l m).0
  unfolding try_emplace
  try_emplace-IsMap l m hl h =
      let more = leaves-internal_emplace l m.root hl h.shape in
      record {
        shape = internal_emplace-IsTree l m.root hl h.shape;
        counted = elim (Bool-cases (internal_emplace l m.root).1) [
          | inl e ↦
              let n : leaves (internal_emplace l m.root).0 ≡ leaves m.root + 1 =
                ground (arith, more, e) in
              let s : (try_emplace l m).0.size ≡ add64 m.size 1 = ground (arith, e) in
              s ∙ omega (arith, n, h.counted)
          | inr e ↦
              let n : leaves (internal_emplace l m.root).0 ≡ leaves m.root =
                ground (arith, more, e) in
              let s : (try_emplace l m).0.size ≡ m.size = ground (arith, e) in
              s ∙ omega (arith, n, h.counted)
        ];
      }

  pub erase_key-IsMap : (k : Key) (m : RadixMap V) → AreBytes k → IsMap m → IsMap (erase_key k m).0
  unfolding erase_key
  erase_key-IsMap k m hk h = record {
    shape = erase-IsTree k m.root hk h.shape;
    counted = elim (Option-cases (internal_find k m.root)) [
      | inl absent ↦
          let kept = erase_absent k m.root absent in
          subst (λ (r : Tree V × ℕ). sub64 m.size r.1 ≡ leaves r.0 % 2 ^ 64) (sym kept)
            (omega (arith, h.counted))
      | inr (l, found) ↦
          let erased = erase_found k m.root l h.shape found in
          subst (λ (r : Tree V × ℕ). sub64 m.size r.1 ≡ leaves r.0 % 2 ^ 64) (sym erased)
            (omega (arith, h.counted, leaves-remove k m.root l hk h.shape found))
    ];
  }
