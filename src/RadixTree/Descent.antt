-- ===== src/RadixTree/Descent.antt =====
-- Which leaf `descend` finds, and how `follow_path` uses the path.
use native.Mathlib.Decide.{ℕ_discrete, dec_lt}
use libpmemobj_cpp.Common.{
  ℕ, ◌≤◌, ◌<◌, ◌≡◌, ◌≢◌, refl, ap, sym, ◌∙◌, subst, arith, true, false, if◌then◌else◌, inl, inr,
  Bool-cases, none, some,
}
use libpmemobj_cpp.Common.Cases.{some-injective}
use libpmemobj_cpp.RadixTree.{
  Key, Leaf, slice_index, path_length_equal, keys_equal, Tree, null, leaf, node, is_null, put,
  internal_find, any_leftmost_leaf, descend,
}
use libpmemobj_cpp.RadixTree.Slices.{nibble, position, slice_index-nibble}
use libpmemobj_cpp.RadixTree.Keys.{AreBytes, keys_equal_size, keys_equal-nibble}
use libpmemobj_cpp.RadixTree.Shape.{
  All, All-imp, Below, IsNode, IsTree, any_leftmost_leaf-All, any_leftmost_leaf_child,
  any_leftmost_leaf-some,
}

module _ {V : Type 0} where
  pub null_of : (t : Tree V) → is_null t ≡ true → t ≡ null
  null_of null e = refl
  null_of (leaf l) e = absurd (ground (arith, e))
  null_of (node byte bit entry child) e = absurd (ground (arith, e))

  pub descend-some :
      (k : Key) (slot : Tree V → Tree V) (t : Tree V)
      → IsTree t
      → is_null t ≡ false
      → (l : Leaf V) × ((descend k slot t).0 ≡ some l)
  unfolding descend
  descend-some k slot null h e = absurd (ground (arith, e))
  descend-some k slot (leaf l) h e = (l, refl)
  descend-some k slot (node byte bit entry child) h e =
      let i = slice_index (k.byte byte) bit in
      let slot_i = λ (m : Tree V). slot (node byte bit entry (put i m child)) in
      let (l, left) = any_leftmost_leaf-some k.size (node byte bit entry child) h refl in
      elim (dec_lt byte k.size) [
        | no p ↦ (l, ground (arith, p, left))
        | yes p ↦ elim (Bool-cases (is_null (child i))) [
          | inl q ↦ (l, ground (arith, p, q, left))
          | inr q ↦
              let (m, below) = descend-some k slot_i (child i) (h.2 i) q in
              (m, ground (arith, p, q, below))
        ]
      ]

  pub descend-All :
      (P : Leaf V → Type 0) (k : Key) (slot : Tree V → Tree V) (t : Tree V) (l : Leaf V)
      → (descend k slot t).0 ≡ some l
      → All P t
      → P l
  unfolding descend
  descend-All P k slot null l h a = absurd (ground (arith, h))
  descend-All P k slot (leaf m) l h a = subst P (some-injective h) a
  descend-All P k slot (node byte bit entry child) l h a =
      let i = slice_index (k.byte byte) bit in
      let slot_i = λ (m : Tree V). slot (node byte bit entry (put i m child)) in
      let left = any_leftmost_leaf-All P k.size (node byte bit entry child) l in
      elim (dec_lt byte k.size) [
        | no p ↦ left (ground (arith, h, p)) a
        | yes p ↦ elim (Bool-cases (is_null (child i))) [
          | inl q ↦ left (ground (arith, h, p, q)) a
          | inr q ↦ descend-All P k slot_i (child i) l (ground (arith, h, p, q)) (a.1 i)
        ]
      ]

  -- At a node whose byte the key has, the leaf is one of a child.
  pub descend_child :
      (k : Key) (slot : Tree V → Tree V) (byte bit : ℕ) (entry : Tree V) (child : ℕ → Tree V)
      (P : Leaf V → Type 0) (l : Leaf V)
      → byte < k.size
      → (descend k slot (node byte bit entry child)).0 ≡ some l
      → ((i : ℕ) → All P (child i))
      → P l
  unfolding descend
  descend_child k slot byte bit entry child P l p h a =
      let i = slice_index (k.byte byte) bit in
      let slot_i = λ (m : Tree V). slot (node byte bit entry (put i m child)) in
      elim (Bool-cases (is_null (child i))) [
        | inl q ↦
            any_leftmost_leaf_child P k.size byte bit entry child l p (ground (arith, h, p, q)) a
        | inr q ↦ descend-All P k slot_i (child i) l (ground (arith, h, p, q)) (a i)
      ]

  pub entry_first :
      (d byte bit : ℕ) (entry : Tree V) (child : ℕ → Tree V) (m : Leaf V)
      → entry ≡ leaf m
      → d ≤ byte
      → any_leftmost_leaf d (node byte bit entry child) ≡ some m
  unfolding any_leftmost_leaf
  entry_first d byte bit entry child m is p = ground (arith, is, p)

  -- A leaf that the leftmost search finds beside an empty slot for the key.
  beside_empty :
      (k : Key) (byte bit : ℕ) (entry : Tree V) (child : ℕ → Tree V) (l : Leaf V)
      → AreBytes k
      → IsNode byte bit entry child
      → byte < k.size
      → is_null (child (slice_index (k.byte byte) bit)) ≡ true
      → any_leftmost_leaf k.size (node byte bit entry child) ≡ some l
      → keys_equal k l.key ≡ false
  beside_empty k byte bit entry child l hk h p q e =
      let pos = position byte bit in
      let i = slice_index (k.byte byte) bit in
      let mine = slice_index-nibble k byte bit (hk byte) h.half in
      let other : nibble k pos ≢ nibble l.key pos =
        any_leftmost_leaf_child (λ m. nibble k pos ≢ nibble m.key pos) k.size byte bit entry child l
          p e
          (λ j. elim (ℕ_discrete i j) [
            | yes same ↦
                subst (All (λ m. nibble k pos ≢ nibble m.key pos))
                  (sym (null_of (child i) q) ∙ ap child same) tt
            | no apart ↦
                All-imp (Below byte bit j) (λ m. nibble k pos ≢ nibble m.key pos)
                  (λ m below z. apart (mine ∙ z ∙ below.1)) (child j) (h.branches j)
          ]) in
      keys_equal-nibble k l.key pos (ground (arith, h.half)) other

  -- The leaf that `descend` finds decides whether the key is in the tree.
  pub descend_decides :
      (k : Key) (slot : Tree V → Tree V) (t : Tree V) (l : Leaf V)
      → AreBytes k
      → IsTree t
      → (descend k slot t).0 ≡ some l
      → internal_find k t ≡ (if keys_equal k l.key then some l else none)
  unfolding descend internal_find path_length_equal
  descend_decides k slot null l hk h e = absurd (ground (arith, e))
  descend_decides k slot (leaf m) l hk h e =
      subst
        (λ n.
          (if keys_equal k m.key then some m else none)
          ≡ (if keys_equal k n.key then some n else none))
        (some-injective e) refl
  descend_decides k slot (node byte bit entry child) l hk h e =
      let i = slice_index (k.byte byte) bit in
      let slot_i = λ (m : Tree V). slot (node byte bit entry (put i m child)) in
      elim (dec_lt byte k.size) [
        | yes p ↦ elim (Bool-cases (is_null (child i))) [
          | inl q ↦
              let differ =
                beside_empty k byte bit entry child l hk h.0 p q (ground (arith, e, p, q)) in
              let empty = null_of (child i) q in
              let nothing : internal_find k (child i) ≡ none = ap (internal_find k) empty in
              ground (arith, p, nothing, differ)
          | inr q ↦
              ground (
                arith,
                p,
                descend_decides k slot_i (child i) l hk (h.2 i) (ground (arith, e, p, q)),
              )
        ]
        | no p ↦ elim h.0.embedded [
          | inl none_here ↦
              let nothing : internal_find k entry ≡ none = ap (internal_find k) none_here in
              let longer : byte < l.key.size =
                any_leftmost_leaf-All (λ m. byte < m.key.size) k.size (node byte bit entry child) l
                  (ground (arith, e, p))
                  (
                    subst (All (λ m. byte < m.key.size)) (sym none_here) tt,
                    λ j.
                        All-imp (Below byte bit j) (λ m. byte < m.key.size) (λ m b. b.0) (child j)
                          (h.0.branches j),
                  ) in
              let differ = keys_equal_size k l.key (omega arith) in
              ground (arith, p, nothing, differ)
          | inr (m, is, size, upper) ↦
              let first : any_leftmost_leaf k.size (node byte bit entry child) ≡ some m =
                entry_first k.size byte bit entry child m is (omega arith) in
              let same : m ≡ l = some-injective (sym first ∙ ground (arith, e, p)) in
              let inside : internal_find k entry ≡ (if keys_equal k m.key then some m else none) =
                ap (internal_find k) is in
              subst
                (λ n.
                  internal_find k (node byte bit entry child)
                  ≡ (if keys_equal k n.key then some n else none))
                same
                (elim (ℕ_discrete k.size byte) [
                  | yes at ↦ ground (arith, at, upper, inside)
                  | no off ↦
                      let differ = keys_equal_size k m.key (omega (arith, size)) in
                      ground (arith, p, off, differ)
                ])
        ]
      ]
