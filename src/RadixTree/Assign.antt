-- ===== src/RadixTree/Assign.antt =====
-- The assignment of a value to the leaf of a key.
use native.Mathlib.Decide.{ℕ_discrete, dec_lt}
use libpmemobj_cpp.Common.{
  ◌≡◌, refl, ap, ◌∙◌, arith, true, if◌then◌else◌, inl, inr, Bool-cases, Option, none, some, List,
  [], ◌∷◌,
}
use libpmemobj_cpp.Common.Cases.{some-injective}
use libpmemobj_cpp.RadixTree.{
  Key, Leaf, slice_index, path_length_equal, keys_equal, Tree, null, leaf, node, put, internal_find,
}
use libpmemobj_cpp.RadixTree.Keys.{AreBytes, keys_equal_size}
use libpmemobj_cpp.RadixTree.Shape.{IsTree}
use libpmemobj_cpp.RadixTree.Insertion.{child_set}
use libpmemobj_cpp.RadixTree.Search.{Changed, find_in_node}
use libpmemobj_cpp.RadixTree.Erase.{
  Slot, embedded_entry, child_at, Parent, store_child, locate, store_up,
}
use libpmemobj_cpp.RadixTree.Removal.{keys_equal_both, keys_equal_alike}
use libpmemobj_cpp.RadixTree.Map.{assign_val}

module _ {V : Type 0} where
  abbrev pub assigned : Leaf V → V → Leaf V
  assigned l v = record { key = l.key; value = v }

  -- `assign_val` as a recursion on the tree.
  unfoldable pub replace : Key → V → Tree V → Tree V
  unfolding path_length_equal slice_index
  replace k v null = null
  replace k v (leaf l) = leaf (assigned l v)
  replace k v (node byte bit entry child) =
      let i = slice_index (k.byte byte) bit in
      let in_entry = replace k v entry in
      let in_child = replace k v (child i) in
      if path_length_equal k.size byte bit
      then node byte bit in_entry child
      else node byte bit entry (put i in_child child)

  found_up :
      (k : Key) (v : V) (parents : List (Parent V)) (t : Tree V) (l : Leaf V)
      → internal_find k t ≡ some l
      → (m : Leaf V) × (up : List (Parent V)) × (locate k parents t ≡ some (m, up))
        × (store_up up (leaf (assigned m v)) ≡ store_up parents (replace k v t))
  unfolding locate internal_find store_up store_child replace
  found_up k v parents null l found = absurd (ground (arith, found))
  found_up k v parents (leaf e) l found =
      let same : keys_equal k e.key ≡ true = ground (arith, found) in
      (e, parents, ground (arith, same), refl)
  found_up k v parents (node byte bit entry child) l found =
      let i = slice_index (k.byte byte) bit in
      let here : Slot → Parent V =
        λ s. record { byte = byte; bit = bit; entry = entry; child = child; slot = s } in
      elim (Bool-cases (path_length_equal k.size byte bit)) [
        | inl at ↦
            let (m, up, there, stored) =
              found_up k v (here embedded_entry ∷ parents) entry l (ground (arith, found, at)) in
            (m, up, ground (arith, at, there), stored ∙ ground (arith, at))
        | inr at ↦ elim (dec_lt byte k.size) [
          | yes p ↦
              let (m, up, there, stored) =
                found_up k v (here (child_at i) ∷ parents) (child i) l
                  (ground (arith, found, at, p)) in
              (m, up, ground (arith, at, there, p), stored ∙ ground (arith, at))
          | no p ↦ absurd (ground (arith, found, at, p))
        ]
      ]

  pub assign_found :
      (k : Key) (v : V) (t : Tree V) (l : Leaf V)
      → internal_find k t ≡ some l
      → assign_val k v t ≡ replace k v t
  unfolding assign_val store_up
  assign_found k v t l found =
      let (m, up, there, stored) = found_up k v [] t l found in
      ap
        (λ (r : Option (Leaf V × List (Parent V))). elim r [
          | none ↦ t
          | some found ↦ store_up found.1 (leaf (assigned found.0 v))
        ])
        there
      ∙ stored

  leaf_replaced :
      (k j : Key) (v : V) (e l : Leaf V)
      → (if keys_equal k e.key then some e else none) ≡ some l
      → Changed k
          (some (assigned l v))
          j
          (if keys_equal j e.key then some (assigned e v) else none)
          (if keys_equal j e.key then some e else none)
  leaf_replaced k j v e l found =
      let same : keys_equal k e.key ≡ true = ground (arith, found) in
      let is : e ≡ l = some-injective (ground (arith, found)) in
      elim (Bool-cases (keys_equal j k)) [
        | inl y ↦
            let equal = keys_equal_alike j k e.key y ∙ same in
            ground (arith, equal, y, ap (λ (x : Leaf V). some (assigned x v)) is)
        | inr n ↦ elim (Bool-cases (keys_equal j e.key)) [
          | inl y ↦ absurd (ground (arith, n, keys_equal_both j k e.key same y))
          | inr m ↦ ground (arith, n, m)
        ]
      ]

  pub find_replaced :
      (k j : Key) (v : V) (t : Tree V) (l : Leaf V)
      → AreBytes k
      → AreBytes j
      → IsTree t
      → internal_find k t ≡ some l
      → Changed k (some (assigned l v)) j (internal_find j (replace k v t)) (internal_find j t)
  unfolding replace internal_find path_length_equal
  find_replaced k j v null l hk hj h found = absurd (ground (arith, found))
  find_replaced k j v (leaf e) l hk hj h found = leaf_replaced k j v e l found
  find_replaced k j v (node byte bit entry child) l hk hj h found =
      let n = node byte bit entry child in
      let i = slice_index (k.byte byte) bit in
      elim (Bool-cases (path_length_equal k.size byte bit)) [
        | inl at ↦
            let inside = find_replaced k j v entry l hk hj h.1 (ground (arith, found, at)) in
            let made : replace k v n ≡ node byte bit (replace k v entry) child =
              ground (arith, at) in
            let old = find_in_node j byte bit entry child hj h.0.half in
            let new = find_in_node j byte bit (replace k v entry) child hj h.0.half in
            let size : (k.size ≡ byte) × (bit ≡ 4) = ground (arith, at) in
            ap (internal_find j) made ∙ elim (ℕ_discrete byte j.size) [
              | yes same_size ↦ ground (arith, old, new, inside, size, same_size)
              | no off ↦
                  let differ = keys_equal_size j k (omega (arith, off, size)) in
                  ground (arith, old, new, differ, size, off)
            ]
        | inr at ↦ elim (dec_lt byte k.size) [
          | yes p ↦
              let below : internal_find k (child i) ≡ some l = ground (arith, found, at, p) in
              let made : replace k v n ≡ node byte bit entry (put i (replace k v (child i)) child) =
                ground (arith, at) in
              ap (internal_find j) made
              ∙ child_set k (some (assigned l v)) j byte bit entry (replace k v (child i)) child hj
                  hk h.0.half p (find_replaced k j v (child i) l hk hj (h.2 i) below)
          | no p ↦ absurd (ground (arith, found, at, p))
        ]
      ]
