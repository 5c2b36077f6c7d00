-- ===== src/RadixTree/ErasePreservation.antt =====
-- `erase` keeps the shape of a radix tree.
use native.Mathlib.Decide.{ℕ_discrete}
use libpmemobj_cpp.Common.{
  ℕ, ◌<◌, ◌≡◌, ap, sym, ◌∙◌, subst, arith, true, false, ◌⊎◌, inl, inr, Option-cases, some,
}
use libpmemobj_cpp.RadixTree.{
  Key, Leaf, slnodes, slice_index, path_length_equal, Tree, null, leaf, node, is_null, put,
  internal_find,
}
use libpmemobj_cpp.RadixTree.Slices.{nibble, position}
use libpmemobj_cpp.RadixTree.Keys.{AreBytes}
use libpmemobj_cpp.RadixTree.Shape.{All, All-imp, Agree, Below, IsNode, IsShared, IsTree}
use libpmemobj_cpp.RadixTree.NewNodes.{either, put_lem}
use libpmemobj_cpp.RadixTree.Erase.{collapse, erase}
use libpmemobj_cpp.RadixTree.Collapse.{IsRemainder, collapse_lem}
use libpmemobj_cpp.RadixTree.Removal.{is_leaf, is_node, remove, Tree-cases, not_leaf, way}
use libpmemobj_cpp.RadixTree.Without.{without_entry, without_child}
use libpmemobj_cpp.RadixTree.EraseRefinement.{erase_found, erase_absent}

module _ {V : Type 0} where
  collapse-All :
      (P : Leaf V → Type 0) (byte bit : ℕ) (entry : Tree V) (child : ℕ → Tree V)
      → All P (node byte bit entry child)
      → All P (collapse (node byte bit entry child))
  collapse-All P byte bit entry child h = elim (collapse_lem byte bit entry child) [
    | inl (is, shared, some_child) ↦ subst (All P) (sym is) h
    | inr (inl (is, some_entry, empty)) ↦ subst (All P) (sym is) h.0
    | inr (inr (inl (is, no_entry, empty))) ↦ subst (All P) (sym is) tt
    | inr (inr (inr (j, low, is, some_j, no_entry, others))) ↦ subst (All P) (sym is) (h.1 j)
  ]

  collapse-IsTree :
      (byte bit : ℕ) (entry : Tree V) (child : ℕ → Tree V)
      → IsRemainder byte bit entry child
      → IsTree entry
      → ((i : ℕ) → IsTree (child i))
      → IsTree (collapse (node byte bit entry child))
  collapse-IsTree byte bit entry child h in_entry in_child =
      elim (collapse_lem byte bit entry child) [
        | inl (is, shared, some_child) ↦ subst IsTree (sym is) (
          record {
            half = h.half;
            embedded = h.embedded;
            branches = h.branches;
            agreed = h.agreed;
            some_child = some_child;
            two = shared;
          },
          in_entry,
          in_child,
        )
        | inr (inl (is, some_entry, empty)) ↦ subst IsTree (sym is) in_entry
        | inr (inr (inl (is, no_entry, empty))) ↦ subst IsTree (sym is) tt
        | inr (inr (inr (j, low, is, some_j, no_entry, others))) ↦
            subst IsTree (sym is) (in_child j)
      ]

  -- Something is left of a node that has a subtree.
  collapse_some :
      (byte bit : ℕ) (entry : Tree V) (child : ℕ → Tree V)
      → (is_null entry ≡ false) ⊎ ((i : ℕ) × (i < slnodes) × (is_null (child i) ≡ false))
      → is_null (collapse (node byte bit entry child)) ≡ false
  collapse_some byte bit entry child h = elim (collapse_lem byte bit entry child) [
    | inl (is, shared, some_child) ↦ ap is_null is
    | inr (inl (is, some_entry, empty)) ↦ ap is_null is ∙ some_entry
    | inr (inr (inl (is, no_entry, empty))) ↦ elim h [
      | inl some_entry ↦ absurd (ground (arith, no_entry, some_entry))
      | inr (i, low, some_i) ↦ absurd (ground (arith, empty i low, some_i))
    ]
    | inr (inr (inr (j, low, is, some_j, no_entry, others))) ↦ ap is_null is ∙ some_j
  ]

  remove-All : (P : Leaf V → Type 0) (k : Key) (t : Tree V) → All P t → All P (remove k t)
  unfolding remove
  remove-All P k null h = tt
  remove-All P k (leaf l) h = tt
  remove-All P k (node byte bit entry child) h =
      let i = slice_index (k.byte byte) bit in
      either (All P) (path_length_equal k.size byte bit) _ _
        (collapse-All P byte bit null child (tt, h.1))
        (either (All P) (is_leaf (child i)) _ _
          (collapse-All P byte bit entry (put i null child)
            (h.0, put_lem (λ _. All P) i null child tt h.1))
          (
            h.0,
            put_lem (λ _. All P) i (remove k (child i)) child (remove-All P k (child i) (h.1 i))
                h.1,
          ))

  left_child :
      (entry : Tree V) (child : ℕ → Tree V) (i : ℕ)
      → IsShared entry child
      → (is_null entry ≡ false) ⊎ ((j : ℕ) × (j < slnodes) × (is_null (put i null child j) ≡ false))
  left_child entry child i h = elim h [
    | inl e ↦ inl e
    | inr (x, y, sx, sy, apart, ex, ey) ↦ elim (ℕ_discrete i x) [
      | yes at ↦ inr (y, sy, ground (arith, ey, at, apart))
      | no off ↦ inr (x, sx, ground (arith, ex, off))
    ]
  ]

  -- A node never goes away without leaving a subtree: the assertion of `erase`.
  pub remove-some :
      (k : Key) (t : Tree V) (l : Leaf V)
      → IsTree t
      → is_node t ≡ true
      → internal_find k t ≡ some l
      → is_null (remove k t) ≡ false
  unfolding remove
  remove-some k null l h n found = absurd (ground (arith, n))
  remove-some k (leaf e) l h n found = absurd (ground (arith, n))
  remove-some k (node byte bit entry child) l h n found =
      let i = slice_index (k.byte byte) bit in
      let first = collapse_some byte bit null child (inr h.0.some_child) in
      let second =
        collapse_some byte bit entry (put i null child) (left_child entry child i h.0.two) in
      ground (arith, first, second)

  -- A node whose child is changed, but has no other keys.
  pub thinner :
      (byte bit : ℕ) (entry : Tree V) (child : ℕ → Tree V) (i : ℕ) (t : Tree V)
      → IsNode byte bit entry child
      → ((P : Key → Type 0) → All (λ l. P l.key) (child i) → All (λ l. P l.key) t)
      → is_null t ≡ false
      → IsNode byte bit entry (put i t child)
  thinner byte bit entry child i t h fewer some_t =
      let P = λ (l m : Leaf V). Agree (position byte bit) l.key m.key in
      let Q = λ (l : Leaf V). All (P l) (node byte bit entry (put i t child)) in
      let shrunk : (l : Leaf V) → All (P l) (node byte bit entry child) → Q l = λ l a. (
        a.0,
        put_lem (λ _. All (P l)) i t child (fewer (λ k. Agree (position byte bit) l.key k) (a.1 i))
            a.1,
      ) in
      let below : (j : ℕ) → All Q (child j) = λ j. All-imp _ Q shrunk (child j) (h.agreed.1 j) in
      let (c, low, some_c) = h.some_child in
      record {
        half = h.half;
        embedded = h.embedded;
        branches =
            put_lem (λ j. All (Below byte bit j)) i t child
              (fewer (λ k. (byte < k.size) × (nibble k (position byte bit) ≡ i)) (h.branches i))
              h.branches;
        agreed = (
          All-imp _ Q shrunk entry h.agreed.0,
          put_lem (λ _. All Q) i t child
              (fewer
                (λ k.
                  All (λ m. Agree (position byte bit) k m.key)
                    (node byte bit entry (put i t child)))
                (below i))
              below,
        );
        some_child = (c, low, ground (arith, some_c, some_t));
        two = elim h.two [
          | inl e ↦ inl e
          | inr (x, y, sx, sy, apart, ex, ey) ↦
              inr (x, y, sx, sy, apart, ground (arith, ex, some_t), ground (arith, ey, some_t))
        ];
      }

  remove-IsTree :
      (k : Key) (t : Tree V) (l : Leaf V)
      → AreBytes k
      → IsTree t
      → internal_find k t ≡ some l
      → IsTree (remove k t)
  unfolding remove internal_find
  remove-IsTree k null l hk h found = tt
  remove-IsTree k (leaf e) l hk h found = tt
  remove-IsTree k (node byte bit entry child) l hk h found =
      let n = node byte bit entry child in
      let i = slice_index (k.byte byte) bit in
      elim (way k byte bit entry child l h.0 found) [
        | inl (at, _) ↦
            let made : remove k n ≡ collapse (node byte bit null child) = ground (arith, at) in
            subst IsTree (sym made)
              (collapse-IsTree byte bit null child (without_entry byte bit entry child h.0) tt h.2)
        | inr (at, inside, below) ↦ elim (Tree-cases (child i)) [
          | inl e ↦ absurd (ground (arith, below, ap (internal_find k) e))
          | inr (inl (e, is)) ↦
              let made : remove k n ≡ collapse (node byte bit entry (put i null child)) =
                ground (arith, at, ap is_leaf is) in
              subst IsTree (sym made) (
                collapse-IsTree byte bit entry (put i null child)
                  (without_child byte bit entry child i h.0) h.1
                  (put_lem (λ _. IsTree) i null child tt h.2))
          | inr (inr is) ↦
              let rest = remove k (child i) in
              let made : remove k n ≡ node byte bit entry (put i rest child) =
                ground (arith, at, not_leaf (child i) is) in
              let some_rest = remove-some k (child i) l (h.2 i) is below in
              subst IsTree (sym made) (
                thinner byte bit entry child i rest h.0 (λ P. remove-All (λ l. P l.key) k (child i))
                    some_rest,
                h.1,
                put_lem (λ _. IsTree) i rest child (remove-IsTree k (child i) l hk (h.2 i) below)
                    h.2,
              )
        ]
      ]

  -- `erase` of a key of bytes from a radix tree leaves a radix tree: above all, every node that is
  -- left has a child and two subtrees at least.
  pub erase-IsTree : (k : Key) (t : Tree V) → AreBytes k → IsTree t → IsTree (erase k t).0
  erase-IsTree k t hk h = elim (Option-cases (internal_find k t)) [
    | inl absent ↦ subst (λ (r : Tree V × ℕ). IsTree r.0) (sym (erase_absent k t absent)) h
    | inr (l, found) ↦
        subst (λ (r : Tree V × ℕ). IsTree r.0) (sym (erase_found k t l h found))
          (remove-IsTree k t l hk h found)
  ]
