-- ===== src/RadixTree/Place.antt =====
-- What lies below the place at which `internal_emplace` stores, and what is found there afterwards.
use native.Mathlib.Decide.{ℕ_discrete, dec_lt}
use libpmemobj_cpp.Common.{
  ℕ, ◌+◌, ◌*◌, ◌≤◌, ◌<◌, ◌≡◌, ◌≢◌, refl, ap, sym, ◌∙◌, subst, arith, false, ◌⊎◌, inl, inr, some,
}
use libpmemobj_cpp.Common.Cases.{some-injective}
use libpmemobj_cpp.RadixTree.{
  Key, Leaf, Tree, null, leaf, node, is_null, any_leftmost_leaf, descend, embeds,
}
use libpmemobj_cpp.RadixTree.Slices.{nibble, position}
use libpmemobj_cpp.RadixTree.Keys.{Divergence}
use libpmemobj_cpp.RadixTree.Shape.{All, All-imp, All-zip, Agree, Below, IsNode}
use libpmemobj_cpp.RadixTree.Descent.{entry_first, descend-All, descend_child}
use libpmemobj_cpp.RadixTree.Search.{Behind}

module _ {V : Type 0} where
  -- A leaf below a node whose position comes after `d` has the half byte of the others at `d`.
  Behind-node :
      (m : Leaf V) (diff d byte bit : ℕ) (entry : Tree V) (child : ℕ → Tree V)
      → IsNode byte bit entry child
      → (d ≡ 2 * diff) ⊎ (d ≡ 2 * diff + 1)
      → d < position byte bit
      → All (λ x. Agree (position byte bit) m.key x.key) (node byte bit entry child)
      → All (Behind diff d (nibble m.key d)) (node byte bit entry child)
  Behind-node m diff d byte bit entry child h at p agree = (
    elim h.embedded [
      | inl none_here ↦ subst (All (Behind diff d (nibble m.key d))) (sym none_here) tt
      | inr (e, is, size, upper) ↦
          let long : diff < e.key.size = ground (arith, at, p, size, upper) in
          let same = subst (All (λ x. Agree (position byte bit) m.key x.key)) is agree.0 in
          subst (All (Behind diff d (nibble m.key d))) (sym is) (long, sym (same d p))
    ],
    λ i.
        All-imp (λ x. Below byte bit i x × Agree (position byte bit) m.key x.key)
          (Behind diff d (nibble m.key d)) (λ x b. (ground (arith, at, p, b.0.0), sym (b.1 d p)))
          (child i)
          (All-zip (Below byte bit i) (λ x. Agree (position byte bit) m.key x.key) (child i)
            (h.branches i) (agree.1 i)),
  )

  -- So it is for the leaf that `descend` finds.
  pub behind :
      (k : Key) (slot : Tree V → Tree V) (m : Leaf V) (diff d byte bit : ℕ) (entry : Tree V)
      (child : ℕ → Tree V)
      → IsNode byte bit entry child
      → (d ≡ 2 * diff) ⊎ (d ≡ 2 * diff + 1)
      → d < position byte bit
      → (descend k slot (node byte bit entry child)).0 ≡ some m
      → All (Behind diff d (nibble m.key d)) (node byte bit entry child)
  behind k slot m diff d byte bit entry child h at p e =
      Behind-node m diff d byte bit entry child h at p (
        descend-All
          (λ l. All (λ x. Agree (position byte bit) l.key x.key) (node byte bit entry child)) k slot
          (node byte bit entry child) m e h.agreed)

  -- No key below a node is shorter than the node's byte.
  pub long_enough :
      (byte bit : ℕ) (entry : Tree V) (child : ℕ → Tree V)
      → IsNode byte bit entry child
      → All (λ x. byte ≤ x.key.size) (node byte bit entry child)
  long_enough byte bit entry child h = (
    elim h.embedded [
      | inl none_here ↦ subst (All (λ x. byte ≤ x.key.size)) (sym none_here) tt
      | inr (e, is, size, upper) ↦
          subst (All (λ x. byte ≤ x.key.size)) (sym is) (omega (arith, size))
    ],
    λ i.
        All-imp (Below byte bit i) (λ x. byte ≤ x.key.size) (λ x b. omega (arith, b.0)) (child i)
          (h.branches i),
  )

  -- The key of the leaf is not that of `m`.
  abbrev pub IsFresh : Leaf V → Leaf V → ℕ → Type 0
  IsFresh l m diff = diff ≡ l.key.size → m.key.size ≢ l.key.size

  descend_past :
      (k : Key) (slot : Tree V → Tree V) (byte bit : ℕ) (entry : Tree V) (child : ℕ → Tree V)
      → k.size ≤ byte
      → (descend k slot (node byte bit entry child)).0
        ≡ any_leftmost_leaf k.size (node byte bit entry child)
  unfolding descend
  descend_past k slot byte bit entry child p = ground arith

  -- The four ways in which `new_subtree` makes a subtree of one that is not empty, for a property `Q`
  -- of the byte and the subtree.
  module _ (l m : Leaf V) (diff sh d limit : ℕ) (h : Divergence l.key m.key diff sh d limit)
      (fresh : IsFresh l m diff) (Q : ℕ → Tree V → Type 0)
      (at_end : (t : Tree V)
        → is_null t ≡ false
        → d ≡ 2 * l.key.size
        → embeds l.key.size t ≡ false
        → All (Behind l.key.size (position l.key.size 4) (nibble m.key (position l.key.size 4))) t
        → Q l.key.size t)
      (at_split : (t : Tree V)
        → is_null t ≡ false
        → d ≡ position diff sh
        → (sh ≡ 4) ⊎ (sh ≡ 0)
        → diff < l.key.size
        → diff < m.key.size
        → nibble l.key (position diff sh) ≢ nibble m.key (position diff sh)
        → All (Behind diff (position diff sh) (nibble m.key (position diff sh))) t
        → Q diff t)
      (under_leaf : d ≡ 2 * m.key.size → m.key.size < l.key.size → Q m.key.size (leaf m))
      (in_entry : (child : ℕ → Tree V)
        → d ≡ 2 * l.key.size
        → Q l.key.size (node l.key.size 4 null child)) where
    pub over_leaf : Q diff (leaf m)
    over_leaf = elim h.split [
      | inr (kin, lin, half, at, edge, apart) ↦
          at_split (leaf m) refl at half kin lin
            (subst (λ d. nibble l.key d ≢ nibble m.key d) at apart) (lin, refl)
      | inl (whole, sh8, at, edge) ↦ elim (ℕ_discrete diff l.key.size) [
        | yes e ↦
            subst (λ s. Q s (leaf m)) (sym e)
              (at_end (leaf m) refl (omega (arith, at, e)) refl
                (ground (arith, whole, e, fresh e), refl))
        | no e ↦
            let short : diff ≡ m.key.size = omega (arith, whole, e) in
            subst (λ s. Q s (leaf m)) (sym short)
              (under_leaf (omega (arith, at, short)) (omega (arith, whole, e)))
      ]
    ]

    pub over_node :
        (slot : Tree V → Tree V) (byte bit : ℕ) (entry : Tree V) (child : ℕ → Tree V)
        → IsNode byte bit entry child
        → (descend l.key slot (node byte bit entry child)).0 ≡ some m
        → limit ≤ position byte bit
        → Q diff (node byte bit entry child)
    over_node slot byte bit entry child s found past =
        let t = node byte bit entry child in
        elim h.split [
          | inr (kin, lin, half, at, edge, apart) ↦
              let after : position diff sh < position byte bit = omega (arith, at, edge, past) in
              let lay : (position diff sh ≡ 2 * diff) ⊎ (position diff sh ≡ 2 * diff + 1) =
                ground (arith, half) in
              at_split t refl at half kin lin
                (subst (λ d. nibble l.key d ≢ nibble m.key d) at apart)
                (behind l.key slot m diff (position diff sh) byte bit entry child s lay after found)
          | inl (whole, sh8, at, edge) ↦ elim (ℕ_discrete diff l.key.size) [
            | no e ↦
                let long =
                  descend-All (λ x. byte ≤ x.key.size) l.key slot t m found
                    (long_enough byte bit entry child s) in
                elim (dec_lt byte l.key.size) [
                  | yes p ↦
                      let longer =
                        descend_child l.key slot byte bit entry child (λ x. byte < x.key.size) m p
                          found
                          (λ i.
                            All-imp (Below byte bit i) (λ x. byte < x.key.size) (λ x b. b.0)
                              (child i) (s.branches i)) in
                      absurd (ground (arith, whole, e, at, edge, past, longer, s.half))
                  | no p ↦ absurd (omega (arith, whole, e, long, p))
                ]
            | yes e ↦
                subst (λ s. Q s t) (sym e)
                  (elim (dec_lt (position l.key.size 4) (position byte bit)) [
                    | yes after ↦
                        at_end t refl (omega (arith, at, e)) (ground (arith, after, s.half)) (
                          behind l.key slot m l.key.size (position l.key.size 4) byte bit entry
                            child s (inl (omega arith)) after found)
                    | no not_after ↦
                        let here : (byte ≡ l.key.size) × (bit ≡ 4) =
                          ground (arith, at, edge, e, past, not_after, s.half) in
                        let empty : entry ≡ null = elim s.embedded [
                          | inl none_here ↦ none_here
                          | inr (x, is, size, upper) ↦
                              let first =
                                entry_first l.key.size byte bit entry child x is
                                  (omega (arith, here)) in
                              let same : x ≡ m = some-injective (
                                sym first
                                ∙ sym (
                                    descend_past l.key slot byte bit entry child
                                      (omega (arith, here)))
                                ∙ found) in
                              absurd (
                                fresh e
                                  (ap (λ (y : Leaf V). y.key.size) (sym same) ∙ size ∙ here.0))
                        ] in
                        subst (Q l.key.size)
                          (ap (λ b. node b 4 null child) (sym here.0)
                            ∙ ap (λ c. node byte c null child) (sym here.1)
                            ∙ ap (λ n. node byte bit n child) (sym empty))
                          (in_entry child (omega (arith, at, e)))
                  ])
          ]
        ]
