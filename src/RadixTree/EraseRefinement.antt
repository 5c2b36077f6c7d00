-- ===== src/RadixTree/EraseRefinement.antt =====
-- `erase` as an update of the map from keys to leaves that `internal_find` computes.
use native.Mathlib.Decide.{dec_lt}
use libpmemobj_cpp.Common.{
  ℕ, ◌≡◌, refl, ap, sym, ◌∙◌, arith, Bool, true, if◌then◌else◌, inl, inr, Bool-cases, Option-cases,
  Option, none, some, List, [], ◌∷◌,
}
use libpmemobj_cpp.RadixTree.{
  Key, Leaf, slice_index, keys_equal, Tree, null, leaf, node, internal_find,
}
use libpmemobj_cpp.RadixTree.Slices.{nibble, position}
use libpmemobj_cpp.RadixTree.Keys.{AreBytes, keys_equal-true}
use libpmemobj_cpp.RadixTree.Shape.{IsTree}
use libpmemobj_cpp.RadixTree.Search.{find_in_node, position_inside}
use libpmemobj_cpp.RadixTree.Erase.{
  Slot, embedded_entry, child_at, Parent, store_child, locate, store_up, erase_at, erase,
}
use libpmemobj_cpp.RadixTree.Refinement.{is_some}
use libpmemobj_cpp.RadixTree.Removal.{keys_equal_alike, is_leaf, remove, Tree-cases, not_leaf, way}
use libpmemobj_cpp.RadixTree.Without.{find_removed}

module _ {V : Type 0} where
  -- Equal keys find the same leaf.
  find_alike :
      (j k : Key) (t : Tree V)
      → AreBytes j
      → AreBytes k
      → IsTree t
      → keys_equal j k ≡ true
      → internal_find j t ≡ internal_find k t
  unfolding internal_find
  find_alike j k null hj hk h e = refl
  find_alike j k (leaf l) hj hk h e =
      ap (λ (b : Bool). if b then some l else none) (keys_equal_alike j k l.key e)
  find_alike j k (node byte bit entry child) hj hk h e =
      let (size, whole, same) = keys_equal-true j k e in
      let at_j = find_in_node j byte bit entry child hj h.0.half in
      let at_k = find_in_node k byte bit entry child hk h.0.half in
      let q = nibble j (position byte bit) in
      let in_entry = find_alike j k entry hj hk h.1 e in
      let in_child = find_alike j k (child q) hj hk (h.2 q) e in
      elim (dec_lt byte j.size) [
        | yes p ↦
            let next : internal_find k (child q)
                ≡ internal_find k (child (nibble k (position byte bit))) =
              ap (λ i. internal_find k (child i))
                (same (position byte bit) (position_inside byte bit j.size p)) in
            ground (arith, at_j, at_k, size, p, in_entry, in_child, next)
        | no p ↦ ground (arith, at_j, at_k, size, p, in_entry)
      ]

  abbrev pub leaf_of : Option (Leaf V × List (Parent V)) → Option (Leaf V)
  leaf_of none = none
  leaf_of (some found) = some found.0

  pub find_locate :
      (k : Key) (parents : List (Parent V)) (t : Tree V)
      → leaf_of (locate k parents t) ≡ internal_find k t
  unfolding locate internal_find
  find_locate k parents null = refl
  find_locate k parents (leaf l) = ground (arith)
  find_locate k parents (node byte bit entry child) =
      let i = slice_index (k.byte byte) bit in
      let here : Slot → Parent V =
        λ s. record { byte = byte; bit = bit; entry = entry; child = child; slot = s } in
      let in_entry = find_locate k (here embedded_entry ∷ parents) entry in
      let in_child = find_locate k (here (child_at i) ∷ parents) (child i) in
      ground (arith, in_entry, in_child)

  -- `erase` from the leaf upwards is the recursion on the tree.
  located :
      (k : Key) (parents : List (Parent V)) (t : Tree V) (l : Leaf V)
      → IsTree t
      → internal_find k t ≡ some l
      → (m : Leaf V) × (up : List (Parent V)) × (locate k parents t ≡ some (m, up))
        × (erase_at up ≡ (if is_leaf t then erase_at parents else store_up parents (remove k t)))
  unfolding locate internal_find erase_at store_up store_child remove
  located k parents null l h found = absurd (ground (arith, found))
  located k parents (leaf e) l h found =
      let same : keys_equal k e.key ≡ true = ground (arith, found) in
      (e, parents, ground (arith, same), refl)
  located k parents (node byte bit entry child) l h found =
      let n = node byte bit entry child in
      let i = slice_index (k.byte byte) bit in
      let here : Slot → Parent V =
        λ s. record { byte = byte; bit = bit; entry = entry; child = child; slot = s } in
      elim (way k byte bit entry child l h.0 found) [
        | inl (at, (e, is, same)) ↦
            let up = here embedded_entry ∷ parents in
            let there : locate k up entry ≡ some (e, up) =
              ap (locate k up) is ∙ ap (λ (b : Bool). if b then some (e, up) else none) same in
            (e, up, ground (arith, at, there), ground (arith, at))
        | inr (at, inside, below) ↦
            let up = here (child_at i) ∷ parents in
            let further : locate k parents n ≡ locate k up (child i) = ground (arith, at, inside) in
            elim (Tree-cases (child i)) [
              | inl e ↦ absurd (ground (arith, below, ap (internal_find k) e))
              | inr (inl (e, is)) ↦
                  let same : (if keys_equal k e.key then some e else none) ≡ some l =
                    ap (internal_find k) (sym is) ∙ below in
                  let equal : keys_equal k e.key ≡ true = ground (arith, same) in
                  (
                    e,
                    up,
                    further
                        ∙ ap (locate k up) is
                        ∙ ap (λ (b : Bool). if b then some (e, up) else none) equal,
                    ground (arith, at, ap is_leaf is),
                  )
              | inr (inr is) ↦
                  let (m, parents_m, there, erased) = located k up (child i) l (h.2 i) below in
                  (
                    m,
                    parents_m,
                    further ∙ there,
                    erased ∙ ground (arith, at, not_leaf (child i) is),
                  )
            ]
      ]

  pub erase_found :
      (k : Key) (t : Tree V) (l : Leaf V)
      → IsTree t
      → internal_find k t ≡ some l
      → erase k t ≡ (remove k t, 1)
  unfolding erase erase_at store_up remove internal_find
  erase_found k null l h found = absurd (ground (arith, found))
  erase_found k (leaf e) l h found =
      let (m, up, there, erased) = located k [] (leaf e) l h found in
      let up_leaf : erase_at up ≡ null = erased in
      ap
        (λ (r : Option (Leaf V × List (Parent V))). elim r [
          | none ↦ (leaf e, 0)
          | some found ↦ (erase_at found.1, 1)
        ])
        there
      ∙ ap (λ (n : Tree V). (n, 1)) up_leaf
  erase_found k (node byte bit entry child) l h found =
      let n = node byte bit entry child in
      let (m, up, there, erased) = located k [] n l h found in
      ap
        (λ (r : Option (Leaf V × List (Parent V))). elim r [
          | none ↦ (n, 0)
          | some found ↦ (erase_at found.1, 1)
        ])
        there
      ∙ ap (λ (n : Tree V). (n, 1)) erased

  pub erase_absent : (k : Key) (t : Tree V) → internal_find k t ≡ none → erase k t ≡ (t, 0)
  unfolding erase
  erase_absent k t absent = elim (Option-cases (locate k [] t)) [
    | inl e ↦
        ap
          (λ (r : Option (Leaf V × List (Parent V))). elim r [
            | none ↦ (t, 0)
            | some found ↦ (erase_at found.1, 1)
          ])
          e
    | inr (found, e) ↦ absurd (ground (arith, sym (ap leaf_of e) ∙ find_locate k [] t ∙ absent))
  ]

  -- For every key at once.
  pub erase_lem :
      (k : Key) (t : Tree V)
      → AreBytes k
      → IsTree t
      → ((erase k t).1 ≡ (if is_some (internal_find k t) then 1 else 0))
        × ((j : Key)
            → AreBytes j
            → internal_find j (erase k t).0 ≡ (if keys_equal j k then none else internal_find j t))
  erase_lem k t hk h = elim (Option-cases (internal_find k t)) [
    | inl absent ↦
        let kept = erase_absent k t absent in
        (
          ap (λ (r : Tree V × ℕ). r.1) kept ∙ ground (arith, absent),
          λ j hj.
              ap (λ (r : Tree V × ℕ). internal_find j r.0) kept
              ∙ elim (Bool-cases (keys_equal j k)) [
                | inl e ↦ ground (arith, e, find_alike j k t hj hk h e, absent)
                | inr e ↦ ground (arith, e)
              ],
        )
    | inr (l, found) ↦
        let erased = erase_found k t l h found in
        (
          ap (λ (r : Tree V × ℕ). r.1) erased ∙ ground (arith, found),
          λ j hj.
              ap (λ (r : Tree V × ℕ). internal_find j r.0) erased
              ∙ find_removed k j t l hk hj h found,
        )
  ]

  -- On the map from keys to leaves that `internal_find` computes, `erase` of a key of bytes from a
  -- radix tree is a removal: it answers how many leaves went, one or none, by whether the key was
  -- found; then no equal key is found, and every other search finds what it found before.
  pub erase_refines :
      (k : Key) (t : Tree V) (j : Key)
      → AreBytes k
      → AreBytes j
      → IsTree t
      → ((erase k t).1 ≡ (if is_some (internal_find k t) then 1 else 0))
        × (internal_find j (erase k t).0 ≡ (if keys_equal j k then none else internal_find j t))
  erase_refines k t j hk hj h = let (many, found) = erase_lem k t hk h in (many, found j hj)
