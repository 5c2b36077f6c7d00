-- ===== src/RadixTree/Insertion.antt =====
-- What is found after a leaf has been stored at the place for its key.
use native.Mathlib.Decide.{ℕ_discrete, dec_lt}
use libpmemobj_cpp.Common.{ℕ, ◌<◌, ◌≡◌, ◌≢◌, refl, ap, sym, ◌∙◌, arith, ◌⊎◌, inl, Option, none}
use libpmemobj_cpp.RadixTree.{Key, Leaf, slice_index, Tree, null, leaf, node, put, internal_find}
use libpmemobj_cpp.RadixTree.Slices.{nibble, position, slice_index-nibble}
use libpmemobj_cpp.RadixTree.Keys.{AreBytes, keys_equal_size, keys_equal-nibble}
use libpmemobj_cpp.RadixTree.Shape.{All}
use libpmemobj_cpp.RadixTree.Search.{
  Behind, Changed, Updated, elsewhere_absent, find_in_node, find_leaf, find_null, position_inside,
  short_absent,
}

module _ {V : Type 0} where
  -- A new node with the subtree and the leaf, if both branch there.
  pub split_both :
      (l : Leaf V) (j : Key) (diff sh i : ℕ) (t : Tree V)
      → AreBytes j
      → AreBytes l.key
      → (sh ≡ 4) ⊎ (sh ≡ 0)
      → diff < l.key.size
      → nibble l.key (position diff sh) ≢ i
      → All (Behind diff (position diff sh) i) t
      → Updated l j
          (internal_find j (
            node diff sh null
              (put (slice_index (l.key.byte diff) sh) (leaf l) (put i t (λ _. null)))))
          (internal_find j t)
  split_both l j diff sh i t hj hl half inside apart behind =
      let d = position diff sh in
      let a = slice_index (l.key.byte diff) sh in
      let ea = slice_index-nibble l.key diff sh (hl diff) half in
      let q = nibble j d in
      let found = find_in_node j diff sh null (put a (leaf l) (put i t (λ _. null))) hj half in
      elim (dec_lt diff j.size) [
        | no p ↦
            let nothing = short_absent j diff d i t (omega arith) behind in
            let differ = keys_equal_size j l.key (omega arith) in
            ground (arith, found, nothing, differ, find_null {V = V} j)
        | yes p ↦
            let low = position_inside diff sh j.size p in
            elim (ℕ_discrete a q) [
              | yes at ↦
                  let nothing =
                    elsewhere_absent j diff d i t low (λ z. apart (sym ea ∙ at ∙ z)) behind in
                  let here : internal_find j (put a (leaf l) (put i t (λ _. null)) q)
                      ≡ internal_find j (leaf l) =
                    ground (arith, at) in
                  ground (arith, found, nothing, here, find_leaf l j, p)
              | no off ↦
                  let differ = keys_equal-nibble j l.key d low (λ z. off (ea ∙ sym z)) in
                  elim (ℕ_discrete i q) [
                    | yes at ↦
                        let here : internal_find j (put a (leaf l) (put i t (λ _. null)) q)
                            ≡ internal_find j t =
                          ground (arith, at, off) in
                        ground (arith, found, here, differ, p)
                    | no gone ↦
                        let here : internal_find j (put a (leaf l) (put i t (λ _. null)) q) ≡ none =
                          ground (arith, gone, off, find_null {V = V} j) in
                        let nothing =
                          elsewhere_absent j diff d i t low (λ z. gone (sym z)) behind in
                        ground (arith, found, here, nothing, differ, p)
                  ]
            ]
      ]

  -- A new node for a leaf whose key ends where the subtree goes on.
  pub split_above :
      (l : Leaf V) (j : Key) (i : ℕ) (t : Tree V)
      → AreBytes j
      → All (Behind l.key.size (position l.key.size 4) i) t
      → Updated l j
          (internal_find j (node l.key.size 4 (leaf l) (put i t (λ _. null))))
          (internal_find j t)
  split_above l j i t hj behind =
      let diff = l.key.size in
      let d = position diff 4 in
      let q = nibble j d in
      let found = find_in_node j diff 4 (leaf l) (put i t (λ _. null)) hj (inl refl) in
      elim (dec_lt diff j.size) [
        | no p ↦
            let nothing = short_absent j diff d i t (omega arith) behind in
            elim (ℕ_discrete diff j.size) [
              | yes at ↦ ground (arith, found, nothing, at, find_leaf l j)
              | no off ↦
                  let differ = keys_equal_size j l.key (omega arith) in
                  ground (arith, found, nothing, differ, off)
            ]
        | yes p ↦
            let low = position_inside diff 4 j.size p in
            let differ = keys_equal_size j l.key (omega arith) in
            elim (ℕ_discrete i q) [
              | yes at ↦
                  let here : internal_find j (put i t (λ _. null) q) ≡ internal_find j t =
                    ground (arith, at) in
                  ground (arith, found, here, differ, p)
              | no gone ↦
                  let here : internal_find j (put i t (λ _. null) q) ≡ none =
                    ground (arith, gone, find_null {V = V} j) in
                  let nothing = elsewhere_absent j diff d i t low (λ z. gone (sym z)) behind in
                  ground (arith, found, here, nothing, differ, p)
            ]
      ]

  -- A new node above a leaf whose key ends where the new one goes on.
  pub split_under :
      (l m : Leaf V) (j : Key)
      → AreBytes j
      → AreBytes l.key
      → m.key.size < l.key.size
      → Updated l j
          (internal_find j (
            node m.key.size 4
              (leaf m)
              (put (slice_index (l.key.byte m.key.size) 4) (leaf l) (λ _. null))))
          (internal_find j (leaf m))
  split_under l m j hj hl inside =
      let diff = m.key.size in
      let d = position diff 4 in
      let a = slice_index (l.key.byte diff) 4 in
      let ea = slice_index-nibble l.key diff 4 (hl diff) (inl refl) in
      let q = nibble j d in
      let found = find_in_node j diff 4 (leaf m) (put a (leaf l) (λ _. null)) hj (inl refl) in
      elim (ℕ_discrete diff j.size) [
        | yes at ↦
            let differ = keys_equal_size j l.key (omega arith) in ground (arith, found, differ, at)
        | no off ↦
            let nothing : internal_find j (leaf m) ≡ none =
              let apart = keys_equal_size j m.key (omega arith) in
              ground (arith, find_leaf m j, apart) in
            elim (dec_lt diff j.size) [
              | no p ↦
                  let differ = keys_equal_size j l.key (omega arith) in
                  ground (arith, found, differ, off, nothing)
              | yes p ↦ elim (ℕ_discrete a q) [
                | yes at ↦
                    let here : internal_find j (put a (leaf l) (λ _. null) q)
                        ≡ internal_find j (leaf l) =
                      ground (arith, at) in
                    ground (arith, found, here, find_leaf l j, p, nothing)
                | no gone ↦
                    let differ =
                      keys_equal-nibble j l.key d (position_inside diff 4 j.size p)
                        (λ z. gone (ea ∙ sym z)) in
                    let here : internal_find j (put a (leaf l) (λ _. null) q) ≡ none =
                      ground (arith, gone, find_null {V = V} j) in
                    ground (arith, found, here, differ, p, nothing)
              ]
            ]
      ]

  -- The leaf becomes the entry of a node that had none.
  pub entry_set :
      (l : Leaf V) (j : Key) (child : ℕ → Tree V)
      → AreBytes j
      → Updated l j
          (internal_find j (node l.key.size 4 (leaf l) child))
          (internal_find j (node l.key.size 4 null child))
  entry_set l j child hj =
      let diff = l.key.size in
      let after = find_in_node j diff 4 (leaf l) child hj (inl refl) in
      let before = find_in_node j diff 4 null child hj (inl refl) in
      elim (ℕ_discrete diff j.size) [
        | yes at ↦ ground (arith, after, before, at, find_leaf l j, find_null {V = V} j)
        | no off ↦
            let differ = keys_equal_size j l.key (omega arith) in
            ground (arith, after, before, off, differ)
      ]

  -- A change of the child on the way of a key.
  pub child_set :
      (k : Key) (r : Option (Leaf V)) (j : Key) (byte bit : ℕ) (entry t : Tree V)
      (child : ℕ → Tree V)
      → AreBytes j
      → AreBytes k
      → (bit ≡ 4) ⊎ (bit ≡ 0)
      → byte < k.size
      → Changed k r j (internal_find j t) (internal_find j (child (slice_index (k.byte byte) bit)))
      → Changed k r j
          (internal_find j (node byte bit entry (put (slice_index (k.byte byte) bit) t child)))
          (internal_find j (node byte bit entry child))
  child_set k r j byte bit entry t child hj hk half inside ih =
      let p = position byte bit in
      let a = slice_index (k.byte byte) bit in
      let ea = slice_index-nibble k byte bit (hk byte) half in
      let q = nibble j p in
      let after = find_in_node j byte bit entry (put a t child) hj half in
      let before = find_in_node j byte bit entry child hj half in
      elim (dec_lt byte j.size) [
        | no r ↦
            let differ = keys_equal_size j k (omega arith) in ground (arith, after, before, differ)
        | yes r ↦ elim (ℕ_discrete a q) [
          | yes at ↦
              let here : internal_find j (put a t child q) ≡ internal_find j t =
                ground (arith, at) in
              let was : internal_find j (child q) ≡ internal_find j (child a) =
                ap (λ i. internal_find j (child i)) (sym at) in
              ground (arith, after, before, here, was, ih, r)
          | no gone ↦
              let differ =
                keys_equal-nibble j k p (position_inside byte bit j.size r)
                  (λ z. gone (ea ∙ sym z)) in
              let here : internal_find j (put a t child q) ≡ internal_find j (child q) =
                ground (arith, gone) in
              ground (arith, after, before, here, differ, r)
        ]
      ]
