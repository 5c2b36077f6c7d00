-- ===== src/RadixTree/Refinement.antt =====
-- `internal_emplace` as an update of the map from keys to leaves that `internal_find` computes.
use libpmemobj_cpp.Common.{
  ℕ, ◌≡◌, refl, ap, sym, ◌∙◌, subst, arith, ◌==◌, Bool, true, false, not, ◌&&◌, if◌then◌else◌, inl,
  inr, Bool-cases, Option, none, some, List, ltb→lt,
}
use libpmemobj_cpp.Common.Cases.{some-injective}
use libpmemobj_cpp.RadixTree.{
  Key, Leaf, slice_index, keys_equal, prefix_diff, bit_diff, Tree, null, leaf, node, is_null, put,
  internal_find, NodeDesc, descend, goes_on, follow_path, new_subtree, internal_emplace,
}
use libpmemobj_cpp.RadixTree.Slices.{position}
use libpmemobj_cpp.RadixTree.Keys.{AreBytes, Divergence, goes_on_lem, diverge, keys_equal_iff}
use libpmemobj_cpp.RadixTree.Shape.{All, IsTree}
use libpmemobj_cpp.RadixTree.Descent.{null_of, descend-some, descend-All, descend_decides}
use libpmemobj_cpp.RadixTree.Path.{goes_on_byte, store_below, follow_path-descend}
use libpmemobj_cpp.RadixTree.Insertion.{child_set}
use libpmemobj_cpp.RadixTree.Search.{Updated, find_leaf}
use libpmemobj_cpp.RadixTree.Emplace.{Stored-leaf, Stored-node}
use libpmemobj_cpp.RadixTree.Place.{IsFresh}

module _ {V : Type 0} where
  module _ (l m : Leaf V) (diff sh d limit : ℕ) (hl : AreBytes l.key) (hm : AreBytes m.key)
      (h : Divergence l.key m.key diff sh d limit) (fresh : IsFresh l m diff) where
    -- The leaf that is found decides nothing below an empty slot.
    in_null :
        (j : Key) (t : Tree V)
        → is_null t ≡ true
        → Updated l j (internal_find j (store_below l m.key diff sh t)) (internal_find j t)
    unfolding store_below new_subtree internal_find
    in_null j t e =
        subst
          (λ n. Updated l j (internal_find j (store_below l m.key diff sh n)) (internal_find j n))
          (sym (null_of t e)) (find_leaf l j)

    stored_below :
        (t : Tree V) (slot : Tree V → Tree V) (j : Key)
        → IsTree t
        → (descend l.key slot t).0 ≡ some m
        → AreBytes j
        → Updated l j (internal_find j (store_below l m.key diff sh t)) (internal_find j t)
    unfolding store_below descend
    stored_below null slot j s found hj = in_null j null refl
    stored_below (leaf old) slot j s found hj =
        subst
          (λ x.
            Updated l j (internal_find j (store_below l m.key diff sh (leaf x)))
              (internal_find j (leaf x)))
          (sym (some-injective found)) (Stored-leaf l m diff sh d limit hl hm h fresh j hj)
    stored_below (node byte bit entry child) slot j s found hj =
        let n = node byte bit entry child in
        let i = slice_index (l.key.byte byte) bit in
        let slot_i = λ (x : Tree V). slot (node byte bit entry (put i x child)) in
        let on = goes_on_lem l.key m.key diff sh d limit h byte bit entry child s.0.half in
        elim (Bool-cases (goes_on n diff sh)) [
          | inr stop ↦
              let made : store_below l m.key diff sh n ≡ new_subtree l m.key diff sh n =
                ground (arith, stop) in
              subst (λ x. Updated l j (internal_find j x) (internal_find j n)) (sym made)
                (Stored-node l m diff sh d limit hl hm h fresh slot byte bit entry child s.0 found
                  (ground (arith, on, stop)) j hj)
          | inl more ↦
              let inside =
                goes_on_byte l.key m.key diff sh d limit byte bit h
                  (ltb→lt (position byte bit) limit (sym on ∙ more)) in
              let below : store_below l m.key diff sh n
                  ≡ node byte bit entry (put i (store_below l m.key diff sh (child i)) child) =
                ground (arith, more) in
              let in_child : Updated l j (internal_find j (store_below l m.key diff sh (child i)))
                  (internal_find j (child i)) =
                elim (Bool-cases (is_null (child i))) [
                  | inl q ↦ in_null j (child i) q
                  | inr q ↦
                      stored_below (child i) slot_i j (s.2 i) (ground (arith, found, inside, q)) hj
                ] in
              subst (λ x. Updated l j (internal_find j x) (internal_find j n)) (sym below)
                (child_set l.key (some l) j byte bit entry (store_below l m.key diff sh (child i))
                  child hj hl s.0.half inside in_child)
        ]

  abbrev pub is_some : Option (Leaf V) → Bool
  is_some none = false
  is_some (some l) = true

  -- Of an insertion into a map, given as its function for lookups: the new map.
  abbrev pub inserted : Leaf V → (Key → Option (Leaf V)) → Key → Option (Leaf V)
  inserted l f j = if not (is_some (f l.key)) && keys_equal j l.key then some l else f j

  emplace_found :
      (l old : Leaf V) (t : Tree V) (slot : Tree V → Tree V)
      → AreBytes l.key
      → IsTree t
      → (descend l.key slot t).0 ≡ some old
      → is_some (internal_find l.key t)
        ≡ (prefix_diff l.key old.key == l.key.size && old.key.size == l.key.size)
  emplace_found l old t slot hl h found =
      ground (arith, descend_decides l.key slot t old hl h found, keys_equal_iff l.key old.key)

  pub All-bytes : (t : Tree V) → IsTree t → All (λ x. AreBytes x.key) t
  All-bytes null h = tt
  All-bytes (leaf l) h = h
  All-bytes (node byte bit entry child) h = (All-bytes entry h.1, λ i. All-bytes (child i) (h.2 i))

  -- What `internal_emplace` does with the leaf and the path.
  finished : Leaf V → Tree V → List (NodeDesc V) → Option (Leaf V) → Tree V × Bool
  finished l root path found =
      let start : NodeDesc V = record { slot = λ n. n; at = root } in
      elim found [
        | none ↦ (root, false)
        | some old ↦
            let diff = prefix_diff l.key old.key in
            let sh = bit_diff old.key l.key diff in
            let d = follow_path start path diff sh in
            if diff == l.key.size && old.key.size == l.key.size
            then (root, false)
            else (d.slot (new_subtree l old.key diff sh d.at), true)
      ]

  emplace_not_empty :
      (l : Leaf V) (t : Tree V)
      → is_null t ≡ false
      → internal_emplace l t
        ≡ finished l t (descend l.key (λ n. n) t).1 (descend l.key (λ n. n) t).0
  unfolding internal_emplace finished
  emplace_not_empty l null e = absurd (ground (arith, e))
  emplace_not_empty l (leaf old) e = refl
  emplace_not_empty l (node byte bit entry child) e = refl

  -- The tree that `internal_emplace` makes of one that is not empty.
  pub emplaced :
      (l : Leaf V) (t : Tree V)
      → AreBytes l.key
      → IsTree t
      → is_null t ≡ false
      → (m : Leaf V) × (d : ℕ) × (limit : ℕ) × ((descend l.key (λ n. n) t).0 ≡ some m)
        × Divergence l.key m.key
            (prefix_diff l.key m.key)
            (bit_diff m.key l.key (prefix_diff l.key m.key))
            d
            limit
        × (internal_emplace l t ≡ (
            if is_some (internal_find l.key t) then (t, false) else (
              store_below l m.key
                  (prefix_diff l.key m.key)
                  (bit_diff m.key l.key (prefix_diff l.key m.key))
                  t,
              true,
            )))
  unfolding finished
  emplaced l t hl h e =
      let slot = λ (n : Tree V). n in
      let start : NodeDesc V = record { slot = slot; at = t } in
      let (m, found) = descend-some l.key slot t h e in
      let hm = descend-All (λ x. AreBytes x.key) l.key slot t m found (All-bytes t h) in
      let (d, limit, div) = diverge l.key m.key hl hm in
      let diff = prefix_diff l.key m.key in
      let sh = bit_diff m.key l.key diff in
      let path = (descend l.key slot t).1 in
      (
        m,
        d,
        limit,
        found,
        div,
        emplace_not_empty l t e
            ∙ ap (finished l t path) found
            ∙ ap
                (λ (b : Bool). if b then (t, false) else (
                  let e = follow_path start path diff sh in
                      e.slot (new_subtree l m.key diff sh e.at),
                  true,
                ))
                (sym (emplace_found l m t slot hl h found))
            ∙ ap (λ n. if is_some (internal_find l.key t) then (t, false) else (n, true))
                (follow_path-descend l m.key diff sh d limit div t slot start h),
      )

  -- A leaf whose key is not found is a fresh one for every leaf of the tree.
  pub not_found-IsFresh :
      (l m : Leaf V) (t : Tree V) (slot : Tree V → Tree V)
      → AreBytes l.key
      → IsTree t
      → (descend l.key slot t).0 ≡ some m
      → is_some (internal_find l.key t) ≡ false
      → IsFresh l m (prefix_diff l.key m.key)
  not_found-IsFresh l m t slot hl h found e same size =
      ground (arith, emplace_found l m t slot hl h found, e, same, size)

  refined_in :
      (l : Leaf V) (t : Tree V)
      → AreBytes l.key
      → IsTree t
      → is_null t ≡ false
      → ((internal_emplace l t).1 ≡ not (is_some (internal_find l.key t)))
        × ((j : Key)
            → AreBytes j
            → internal_find j (internal_emplace l t).0 ≡ inserted l (λ k. internal_find k t) j)
  refined_in l t hl h some_t =
      let (m, d, limit, found, div, result) = emplaced l t hl h some_t in
      let hm = descend-All (λ x. AreBytes x.key) l.key (λ n. n) t m found (All-bytes t h) in
      let diff = prefix_diff l.key m.key in
      let sh = bit_diff m.key l.key diff in
      elim (Bool-cases (is_some (internal_find l.key t))) [
        | inl e ↦
            let kept : internal_emplace l t ≡ (t, false) = ground (arith, result, e) in
            (
              ground (arith, e, kept),
              λ j hj. ground (arith, e, ap (λ (r : Tree V × Bool). internal_find j r.0) kept),
            )
        | inr e ↦
            let stored : internal_emplace l t ≡ (store_below l m.key diff sh t, true) =
              ground (arith, result, e) in
            (
              ground (arith, e, stored),
              λ j hj.
                  let before =
                    stored_below l m diff sh d limit hl hm div
                      (not_found-IsFresh l m t (λ n. n) hl h found e) t (λ n. n) j h found hj in
                  ground (arith, e, ap (λ (r : Tree V × Bool). internal_find j r.0) stored, before),
            )
      ]

  -- For every key at once.
  pub internal_emplace_lem :
      (l : Leaf V) (t : Tree V)
      → AreBytes l.key
      → IsTree t
      → ((internal_emplace l t).1 ≡ not (is_some (internal_find l.key t)))
        × ((j : Key)
            → AreBytes j
            → internal_find j (internal_emplace l t).0 ≡ inserted l (λ k. internal_find k t) j)
  unfolding internal_emplace internal_find
  internal_emplace_lem l null hl h = (refl, λ j hj. find_leaf l j)
  internal_emplace_lem l (leaf old) hl h = refined_in l (leaf old) hl h refl
  internal_emplace_lem l (node byte bit entry child) hl h =
      refined_in l (node byte bit entry child) hl h refl

  -- On the map from keys to leaves that `internal_find` computes, `internal_emplace` of a leaf `l` into
  -- a radix tree over keys of bytes is an insertion: it answers whether the key of `l` was absent;
  -- if it was, every search for an equal key then finds `l`, and every other search, or every
  -- search if the key was there, finds what it found before.
  pub internal_emplace_refines :
      (l : Leaf V) (t : Tree V) (j : Key)
      → AreBytes l.key
      → AreBytes j
      → IsTree t
      → ((internal_emplace l t).1 ≡ not (is_some (internal_find l.key t)))
        × (internal_find j (internal_emplace l t).0 ≡ inserted l (λ k. internal_find k t) j)
  internal_emplace_refines l t j hl hj h =
      let (flag, found) = internal_emplace_lem l t hl h in (flag, found j hj)
