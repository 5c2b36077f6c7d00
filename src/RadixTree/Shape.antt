-- ===== src/RadixTree/Shape.antt =====
-- The shape of a radix tree, and what it says of searches in it.
use native.Mathlib.Decide.{dec_le}
use libpmemobj_cpp.Common.{
  ℕ, zero, suc, ◌+◌, ◌≤◌, ◌<◌, ◌≡◌, ◌≢◌, refl, ap, subst, arith, leb, false, not, ◌&&◌, ◌⊎◌, inl,
  inr, Bool-cases, Option, none, some,
}
use libpmemobj_cpp.Common.Cases.{some-injective}
use libpmemobj_cpp.RadixTree.{
  Key, Leaf, slnodes, slice_index, keys_equal, Tree, null, leaf, node, is_null, get_leaf,
  internal_find, first_child, any_leftmost_leaf,
}
use libpmemobj_cpp.RadixTree.Slices.{nibble, position}
use libpmemobj_cpp.RadixTree.Keys.{AreBytes}

-- The keys have the same half bytes below `p`.
abbrev pub Agree : ℕ → Key → Key → Type 0
Agree p k l = (q : ℕ) → q < p → nibble k q ≡ nibble l q

module _ {V : Type 0} where
  -- Every leaf of the tree has the property.
  abbrev pub All : (Leaf V → Type 0) → Tree V → Type 0
  All P null = Unit {0}
  All P (leaf l) = P l
  All P (node byte bit entry child) = All P entry × ((i : ℕ) → All P (child i))

  pub All-imp :
      (P Q : Leaf V → Type 0) → ((l : Leaf V) → P l → Q l) → (t : Tree V) → All P t → All Q t
  All-imp P Q f null h = tt
  All-imp P Q f (leaf l) h = f l h
  All-imp P Q f (node byte bit entry child) h =
      (All-imp P Q f entry h.0, λ i. All-imp P Q f (child i) (h.1 i))

  pub All-zip : (P Q : Leaf V → Type 0) (t : Tree V) → All P t → All Q t → All (λ l. P l × Q l) t
  All-zip P Q null h k = tt
  All-zip P Q (leaf l) h k = (h, k)
  All-zip P Q (node byte bit entry child) h k =
      (All-zip P Q entry h.0 k.0, λ i. All-zip P Q (child i) (h.1 i) (k.1 i))

  pub All-of : (P : Leaf V → Type 0) → ((l : Leaf V) → P l) → (t : Tree V) → All P t
  All-of P f null = tt
  All-of P f (leaf l) = f l
  All-of P f (node byte bit entry child) = (All-of P f entry, λ i. All-of P f (child i))

  -- A key that goes into child `i` of a node.
  abbrev pub Below : ℕ → ℕ → ℕ → Leaf V → Type 0
  Below byte bit i l = (byte < l.key.size) × (nibble l.key (position byte bit) ≡ i)

  -- Two subtrees at least.
  abbrev pub IsShared : Tree V → (ℕ → Tree V) → Type 0
  IsShared entry child =
      (is_null entry ≡ false)
      ⊎ ((i : ℕ) × (j : ℕ) × (i < slnodes)
          × (j < slnodes)
          × (i ≢ j)
          × (is_null (child i) ≡ false)
          × (is_null (child j) ≡ false))

  -- A node branches on the upper or the lower half of a byte. Its entry has a key that ends there,
  -- its child `i` those with the half byte `i` there, and all agree before.
  -- It has a child, and two subtrees at least.
  pub record IsNode (byte bit : ℕ) (entry : Tree V) (child : ℕ → Tree V) : Type 0 where
    pub half : (bit ≡ 4) ⊎ (bit ≡ 0)
    pub embedded :
        (entry ≡ null) ⊎ ((l : Leaf V) × (entry ≡ leaf l) × (l.key.size ≡ byte) × (bit ≡ 4))
    pub branches : (i : ℕ) → All (Below byte bit i) (child i)
    pub agreed :
        All
          (λ l. All (λ m. Agree (position byte bit) l.key m.key) (node byte bit entry child))
          (node byte bit entry child)
    pub some_child : (i : ℕ) × (i < slnodes) × (is_null (child i) ≡ false)
    pub two : IsShared entry child

  abbrev pub IsTree : Tree V → Type 0
  IsTree null = Unit {0}
  IsTree (leaf l) = AreBytes l.key
  IsTree (node byte bit entry child) =
      IsNode byte bit entry child × IsTree entry × ((i : ℕ) → IsTree (child i))

  -- No leaf with an equal key, so nothing is found.
  pub internal_find_absent :
      (k : Key) (t : Tree V) → All (λ l. keys_equal k l.key ≡ false) t → internal_find k t ≡ none
  unfolding internal_find
  internal_find_absent k null h = refl
  internal_find_absent k (leaf l) h = ground (arith, h)
  internal_find_absent k (node byte bit entry child) h = ground (
    arith,
    internal_find_absent k entry h.0,
    internal_find_absent k (child (slice_index (k.byte byte) bit))
        (h.1 (slice_index (k.byte byte) bit)),
  )

  first_child-All :
      (P : Leaf V → Type 0) (child : ℕ → Tree V) (below : ℕ → Option (Leaf V))
      → ((i : ℕ) (l : Leaf V) → below i ≡ some l → P l)
      → (i n : ℕ) (l : Leaf V) → first_child child below i n ≡ some l
      → P l
  unfolding first_child
  first_child-All P child below f i zero l h = absurd (ground (arith, h))
  first_child-All P child below f i (suc n) l h = elim (Bool-cases (is_null (child i))) [
    | inl e ↦ first_child-All P child below f (i + 1) n l (ground (arith, h, e))
    | inr e ↦ f i l (ground (arith, h, e))
  ]

  first_child-some :
      (child : ℕ → Tree V) (below : ℕ → Option (Leaf V))
      → ((i : ℕ) → is_null (child i) ≡ false → (l : Leaf V) × (below i ≡ some l))
      → (i n j : ℕ) → i ≤ j
      → j < i + n
      → is_null (child j) ≡ false
      → (l : Leaf V) × (first_child child below i n ≡ some l)
  unfolding first_child
  first_child-some child below f i zero j p q e = absurd (omega arith)
  first_child-some child below f i (suc n) j p q e = elim (Bool-cases (is_null (child i))) [
    | inr here ↦ let (l, is) = f i here in (l, ground (arith, here, is))
    | inl empty ↦
        let past : i ≢ j = λ same. ground (arith, empty, e, ap (λ m. is_null (child m)) same) in
        let (l, is) = first_child-some child below f (i + 1) n j (omega arith) (omega arith) e in
        (l, ground (arith, empty, is))
  ]

  get_leaf-All :
      (P : Leaf V → Type 0) (t : Tree V) (l : Leaf V) → get_leaf t ≡ some l → All P t → P l
  get_leaf-All P null l h a = absurd (ground (arith, h))
  get_leaf-All P (leaf m) l h a = subst P (some-injective h) a
  get_leaf-All P (node byte bit entry child) l h a = absurd (ground (arith, h))

  pub any_leftmost_leaf-All :
      (P : Leaf V → Type 0) (d : ℕ) (t : Tree V) (l : Leaf V)
      → any_leftmost_leaf d t ≡ some l
      → All P t
      → P l
  unfolding any_leftmost_leaf
  any_leftmost_leaf-All P d null l h a = absurd (ground (arith, h))
  any_leftmost_leaf-All P d (leaf m) l h a = subst P (some-injective h) a
  any_leftmost_leaf-All P d (node byte bit entry child) l h a =
      elim (Bool-cases (not (is_null entry) && leb d byte)) [
        | inl e ↦ get_leaf-All P entry l (ground (arith, h, e)) a.0
        | inr e ↦
            first_child-All P child (λ i. any_leftmost_leaf d (child i))
              (λ i m q. any_leftmost_leaf-All P d (child i) m q (a.1 i)) 0 slnodes l
              (ground (arith, h, e))
      ]

  -- A node whose byte is too low gives a leaf of a child, and any other node its entry if it has one.
  pub any_leftmost_leaf_child :
      (P : Leaf V → Type 0) (d byte bit : ℕ) (entry : Tree V) (child : ℕ → Tree V) (l : Leaf V)
      → byte < d
      → any_leftmost_leaf d (node byte bit entry child) ≡ some l
      → ((i : ℕ) → All P (child i))
      → P l
  unfolding any_leftmost_leaf
  any_leftmost_leaf_child P d byte bit entry child l low h a =
      first_child-All P child (λ i. any_leftmost_leaf d (child i))
        (λ i m q. any_leftmost_leaf-All P d (child i) m q (a i)) 0 slnodes l
        (ground (arith, h, low))

  -- A tree has a leftmost leaf.
  pub any_leftmost_leaf-some :
      (d : ℕ) (t : Tree V)
      → IsTree t
      → is_null t ≡ false
      → (l : Leaf V) × (any_leftmost_leaf d t ≡ some l)
  unfolding any_leftmost_leaf
  any_leftmost_leaf-some d null h e = absurd (ground (arith, e))
  any_leftmost_leaf-some d (leaf l) h e = (l, refl)
  any_leftmost_leaf-some d (node byte bit entry child) h e =
      let below : (l : Leaf V) × (first_child child (λ i. any_leftmost_leaf d (child i)) 0 slnodes
            ≡ some l) =
        let (i, small, here) = h.0.some_child in
        first_child-some child (λ i. any_leftmost_leaf d (child i))
          (λ i q. any_leftmost_leaf-some d (child i) (h.2 i) q) 0 slnodes i (omega arith)
          (omega arith) here in
      elim h.0.embedded [
        | inl none_here ↦ (below.0, ground (arith, none_here, below.1))
        | inr (m, is, _, _) ↦ elim (dec_le d byte) [
          | yes p ↦ (m, ground (arith, is, p))
          | no p ↦ (below.0, ground (arith, is, p, below.1))
        ]
      ]
