-- ===== src/RadixTree/Removal.antt =====
-- What is found after a leaf has been taken out, and the node above it if need be.
use native.Mathlib.Decide.{ℕ_discrete, dec_lt}
use libpmemobj_cpp.Common.{
  ℕ, ◌<◌, ◌≡◌, refl, ap, sym, ◌∙◌, subst, arith, min, Bool, true, false, if◌then◌else◌, ◌⊎◌, inl,
  inr, Bool-cases, none, some,
}
use libpmemobj_cpp.RadixTree.{
  Key, Leaf, slnodes, slice_index, path_length_equal, keys_equal, prefix_diff, Tree, null, leaf,
  node, is_null, put, internal_find,
}
use libpmemobj_cpp.RadixTree.Slices.{nibble, position, slice_index-nibble}
use libpmemobj_cpp.RadixTree.Keys.{
  AreBytes, prefix_diff_lem, keys_equal_iff, keys_equal-true, keys_equal_size,
}
use libpmemobj_cpp.RadixTree.Shape.{IsNode}
use libpmemobj_cpp.RadixTree.Descent.{null_of}
use libpmemobj_cpp.RadixTree.NewNodes.{slice_index_small}
use libpmemobj_cpp.RadixTree.Search.{
  find_in_node, find_null, find_leaf, short_absent, elsewhere_absent, position_inside,
}
use libpmemobj_cpp.RadixTree.Erase.{collapse}
use libpmemobj_cpp.RadixTree.Collapse.{IsRemainder, collapse_lem}

-- Keys that are equal to one key are equal.
pub keys_equal_both :
    (j k l : Key) → keys_equal k l ≡ true → keys_equal j l ≡ true → keys_equal j k ≡ true
keys_equal_both j k l kl jl =
    let (size_k, whole_k, _) = keys_equal-true k l kl in
    let (size_j, whole_j, _) = keys_equal-true j l jl in
    let (_, same_k, _) = prefix_diff_lem k l in
    let (_, same_j, _) = prefix_diff_lem j l in
    let (bound, _, stop) = prefix_diff_lem j k in
    let whole : prefix_diff j k ≡ j.size = elim (dec_lt (prefix_diff j k) (min j.size k.size)) [
      | yes p ↦ absurd (
          stop p (
            same_j (prefix_diff j k) (omega (arith, whole_j, p))
            ∙ sym (same_k (prefix_diff j k) (omega (arith, whole_k, p)))))
      | no p ↦ omega (arith, bound, size_k, size_j)
    ] in
    ground (arith, keys_equal_iff j k, whole, size_k, size_j)

keys_equal_refl : (k : Key) → keys_equal k k ≡ true
keys_equal_refl k =
    let (bound, _, stop) = prefix_diff_lem k k in
    elim (dec_lt (prefix_diff k k) (min k.size k.size)) [
      | yes p ↦ absurd (stop p refl)
      | no p ↦
          let whole : prefix_diff k k ≡ k.size = omega (arith, bound, p) in
          ground (arith, keys_equal_iff k k, whole)
    ]

-- Equal keys are equal to the same keys.
pub keys_equal_alike : (j k l : Key) → keys_equal j k ≡ true → keys_equal j l ≡ keys_equal k l
keys_equal_alike j k l e =
    let back = keys_equal_both k j k e (keys_equal_refl k) in
    elim (Bool-cases (keys_equal j l)) [
      | inl y ↦
          let flipped = keys_equal_both l j l y (keys_equal_refl l) in
          let to_k = keys_equal_both l k j back flipped in
          y ∙ sym (keys_equal_both k l k to_k (keys_equal_refl k))
      | inr n ↦ elim (Bool-cases (keys_equal k l)) [
        | inl y ↦
            let flipped = keys_equal_both l k l y (keys_equal_refl l) in
            let to_j = keys_equal_both l j k e flipped in
            absurd (ground (arith, n, keys_equal_both j l j to_j (keys_equal_refl j)))
        | inr m ↦ n ∙ sym m
      ]
    ]

module _ {V : Type 0} where
  pub find_collapsed :
      (j : Key) (byte bit : ℕ) (entry : Tree V) (child : ℕ → Tree V)
      → AreBytes j
      → IsRemainder byte bit entry child
      → internal_find j (collapse (node byte bit entry child))
        ≡ internal_find j (node byte bit entry child)
  find_collapsed j byte bit entry child hj h =
      let q = nibble j (position byte bit) in
      let found = find_in_node j byte bit entry child hj h.half in
      let small : q < slnodes =
        subst (λ i. i < slnodes) (slice_index-nibble j byte bit (hj byte) h.half)
          (slice_index_small (j.byte byte) bit) in
      let absent : is_null (child q) ≡ true → internal_find j (child q) ≡ none =
        λ e. ap (internal_find j) (null_of (child q) e) ∙ find_null j in
      elim (collapse_lem byte bit entry child) [
        | inl (kept, shared, some_child) ↦ ap (internal_find j) kept
        | inr (inl (is, some_entry, empty)) ↦ elim h.embedded [
          | inl no_entry ↦ absurd (ground (arith, some_entry, ap is_null no_entry))
          | inr (e, there, size, upper) ↦ ap (internal_find j) is ∙ elim (ℕ_discrete byte j.size) [
            | yes at ↦ ground (arith, found, at, upper)
            | no off ↦
                let differ = keys_equal_size j e.key (omega (arith, size, off)) in
                let inside : internal_find j entry ≡ none =
                  ap (internal_find j) there ∙ find_leaf e j ∙ ground (arith, differ) in
                ground (arith, found, inside, absent (empty q small), off)
          ]
        ]
        | inr (inr (inl (is, no_entry, empty))) ↦
            let entry_absent : internal_find j entry ≡ none =
              ap (internal_find j) (null_of entry no_entry) ∙ find_null j in
            ap (internal_find j) is
            ∙ find_null j
            ∙ ground (arith, found, entry_absent, absent (empty q small))
        | inr (inr (inr (c, low, is, some_c, no_entry, others))) ↦
            let entry_absent : internal_find j entry ≡ none =
              ap (internal_find j) (null_of entry no_entry) ∙ find_null j in
            ap (internal_find j) is ∙ elim (dec_lt byte j.size) [
              | no p ↦
                  let nothing =
                    short_absent j byte (position byte bit) c (child c) (omega arith)
                      (h.branches c) in
                  ground (arith, found, nothing, entry_absent, p)
              | yes p ↦ elim (ℕ_discrete q c) [
                | yes at ↦
                    let same : internal_find j (child q) ≡ internal_find j (child c) =
                      ap (λ i. internal_find j (child i)) at in
                    ground (arith, found, same, p)
                | no off ↦
                    let nothing =
                      elsewhere_absent j byte (position byte bit) c (child c)
                        (position_inside byte bit j.size p) off (h.branches c) in
                    ground (arith, found, nothing, absent (others q small off), p)
              ]
            ]
      ]

  abbrev pub is_leaf : Tree V → Bool
  is_leaf null = false
  is_leaf (leaf l) = true
  is_leaf (node byte bit entry child) = false

  abbrev pub is_node : Tree V → Bool
  is_node null = false
  is_node (leaf l) = false
  is_node (node byte bit entry child) = true

  -- `erase` as a recursion on the tree.
  unfoldable pub remove : Key → Tree V → Tree V
  unfolding path_length_equal slice_index collapse
  remove k null = null
  remove k (leaf l) = null
  remove k (node byte bit entry child) =
      let i = slice_index (k.byte byte) bit in
      let deeper = remove k (child i) in
      if path_length_equal k.size byte bit
      then collapse (node byte bit null child)
      else if is_leaf (child i)
      then collapse (node byte bit entry (put i null child))
      else node byte bit entry (put i deeper child)

  -- What is where a search for a key goes on.
  pub Tree-cases : (t : Tree V) → (t ≡ null) ⊎ ((l : Leaf V) × (t ≡ leaf l)) ⊎ (is_node t ≡ true)
  Tree-cases null = inl refl
  Tree-cases (leaf l) = inr (inl (l, refl))
  Tree-cases (node byte bit entry child) = inr (inr refl)

  pub not_leaf : (t : Tree V) → is_node t ≡ true → is_leaf t ≡ false
  not_leaf null e = refl
  not_leaf (leaf l) e = absurd (ground (arith, e))
  not_leaf (node byte bit entry child) e = refl

  -- A search that succeeds at a node.
  abbrev pub Way : Key → ℕ → ℕ → Tree V → (ℕ → Tree V) → Leaf V → Type 0
  Way k byte bit entry child l =
      ((path_length_equal k.size byte bit ≡ true)
        × ((e : Leaf V) × (entry ≡ leaf e) × (keys_equal k e.key ≡ true)))
      ⊎ ((path_length_equal k.size byte bit ≡ false)
          × (byte < k.size)
          × (internal_find k (child (slice_index (k.byte byte) bit)) ≡ some l))

  pub way :
      (k : Key) (byte bit : ℕ) (entry : Tree V) (child : ℕ → Tree V) (l : Leaf V)
      → IsNode byte bit entry child
      → internal_find k (node byte bit entry child) ≡ some l
      → Way k byte bit entry child l
  unfolding internal_find
  way k byte bit entry child l h found = elim (Bool-cases (path_length_equal k.size byte bit)) [
    | inl e ↦
        let inside : internal_find k entry ≡ some l = ground (arith, found, e) in
        elim h.embedded [
          | inl no_entry ↦ absurd (ground (arith, inside, ap (internal_find k) no_entry))
          | inr (x, is, size, upper) ↦
              let there : (if keys_equal k x.key then some x else none) ≡ some l =
                ap (internal_find k) (sym is) ∙ inside in
              inl (e, (x, is, ground (arith, there)))
        ]
    | inr e ↦ elim (dec_lt byte k.size) [
      | yes p ↦ inr (e, p, ground (arith, found, e, p))
      | no p ↦ absurd (ground (arith, found, e, p))
    ]
  ]
