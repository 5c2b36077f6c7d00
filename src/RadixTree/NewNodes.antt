-- ===== src/RadixTree/NewNodes.antt =====
-- The nodes that `internal_emplace` makes have the shape of a radix tree.
use native.Mathlib.Decide.{ℕ_discrete}
use libpmemobj_cpp.Common.{
  ℕ, ◌/◌, ◌^◌, ◌<◌, ◌≡◌, refl, sym, ◌∙◌, subst, arith, ◌==◌, Bool, true, false, if◌then◌else◌, ◌⊎◌,
}
use libpmemobj_cpp.Common.Bits.{bit_and_low}
use libpmemobj_cpp.RadixTree.{
  Key, Leaf, slice_index, Tree, null, leaf, node, is_null, put, slnodes, goes_on, new_subtree,
  embeds, set_entry,
}
use libpmemobj_cpp.RadixTree.Slices.{position}
use libpmemobj_cpp.RadixTree.Shape.{All, All-imp, Agree, Below, IsNode, IsShared}
use libpmemobj_cpp.RadixTree.Path.{store_below}

pub slice_index_small : (b bit : ℕ) → slice_index b bit < slnodes
unfolding slice_index
slice_index_small b bit = ground (arith, bit_and_low 4 (b / 2 ^ bit))

module _ {V : Type 0} where
  pub put_lem :
      (P : ℕ → Tree V → Type 0) (i : ℕ) (n : Tree V) (child : ℕ → Tree V)
      → P i n
      → ((j : ℕ) → P j (child j))
      → (j : ℕ) → P j (put i n child j)
  put_lem P i n child here others j = elim (ℕ_discrete i j) [
    | yes at ↦
        let is : n ≡ put i n child j = ground (arith, at) in
        subst (λ t. P j t) is (subst (λ k. P k n) at here)
    | no off ↦
        let is : child j ≡ put i n child j = ground (arith, off) in subst (λ t. P j t) is (others j)
  ]

  pub put_here :
      (i : ℕ) (n : Tree V) (child : ℕ → Tree V)
      → is_null n ≡ false
      → is_null (put i n child i) ≡ false
  put_here i n child e = ground (arith, e)

  -- Keys that agree with one key agree with each other.
  Agree-All :
      (m : Key) (p : ℕ) (t : Tree V)
      → All (λ x. Agree p m x.key) t
      → All (λ x. All (λ y. Agree p x.key y.key) t) t
  Agree-All m p t h =
      All-imp (λ x. Agree p m x.key) (λ x. All (λ y. Agree p x.key y.key) t)
        (λ x a.
          All-imp (λ y. Agree p m y.key) (λ y. Agree p x.key y.key) (λ y b q r. sym (a q r) ∙ b q r)
            t h)
        t h

  pub make_node :
      (m : Key) (byte bit : ℕ) (entry : Tree V) (child : ℕ → Tree V)
      → (bit ≡ 4) ⊎ (bit ≡ 0)
      → (entry ≡ null) ⊎ ((l : Leaf V) × (entry ≡ leaf l) × (l.key.size ≡ byte) × (bit ≡ 4))
      → ((i : ℕ) → All (Below byte bit i) (child i))
      → All (λ x. Agree (position byte bit) m x.key) (node byte bit entry child)
      → (i : ℕ) × (i < slnodes) × (is_null (child i) ≡ false)
      → IsShared entry child
      → IsNode byte bit entry child
  make_node m byte bit entry child half embedded branches agree some_child two = record {
    half = half;
    embedded = embedded;
    branches = branches;
    agreed = Agree-All m (position byte bit) (node byte bit entry child) agree;
    some_child = some_child;
    two = two;
  }

  pub either : (P : Tree V → Type 0) (b : Bool) (x y : Tree V) → P x → P y → P (if b then x else y)
  either P true x y hx hy = hx
  either P false x y hx hy = hy

  set_entry-All :
      (P : Leaf V → Type 0) (l : Leaf V) (t : Tree V) → P l → All P t → All P (set_entry (leaf l) t)
  set_entry-All P l null hl ht = tt
  set_entry-All P l (leaf old) hl ht = ht
  set_entry-All P l (node byte bit entry child) hl ht = (hl, ht.1)

  -- The property holds of the leaves of the new subtree if it does of the old ones and the new one.
  pub new_subtree-All :
      (P : Leaf V → Type 0) (l : Leaf V) (m : Key) (diff sh : ℕ) (t : Tree V)
      → P l
      → All P t
      → All P (new_subtree l m diff sh t)
  unfolding new_subtree
  new_subtree-All P l m diff sh t hl ht =
      let no_child = λ (i : ℕ). null in
      let old_in = λ (i : ℕ). put_lem (λ _. All P) i t no_child ht (λ _. tt) in
      let new_in = λ (i : ℕ). put_lem (λ _. All P) i (leaf l) no_child hl (λ _. tt) in
      either (All P) (is_null t) _ _ hl (
        either (All P) (diff == l.key.size) _ _
          (either (All P) (embeds l.key.size t) _ _ (set_entry-All P l t hl ht)
            (hl, old_in (slice_index (m.byte diff) 4)))
          (either (All P) (diff == m.size) _ _ (ht, new_in (slice_index (l.key.byte diff) 4))
            (
              tt,
              put_lem (λ _. All P) (slice_index (l.key.byte diff) sh) (leaf l) _ hl
                  (old_in (slice_index (m.byte diff) sh)),
            )))

  pub store_below-All :
      (P : Leaf V → Type 0) (l : Leaf V) (m : Key) (diff sh : ℕ) (t : Tree V)
      → P l
      → All P t
      → All P (store_below l m diff sh t)
  unfolding store_below
  store_below-All P l m diff sh null hl ht = new_subtree-All P l m diff sh null hl ht
  store_below-All P l m diff sh (leaf old) hl ht = new_subtree-All P l m diff sh (leaf old) hl ht
  store_below-All P l m diff sh (node byte bit entry child) hl ht =
      let i = slice_index (l.key.byte byte) bit in
      either (All P) (goes_on (node byte bit entry child) diff sh) _ _
        (
          ht.0,
          put_lem (λ _. All P) i _ child (store_below-All P l m diff sh (child i) hl (ht.1 i)) ht.1,
        )
        (new_subtree-All P l m diff sh (node byte bit entry child) hl ht)

  set_entry_some : (n t : Tree V) → is_null t ≡ false → is_null (set_entry n t) ≡ false
  set_entry_some n null e = e
  set_entry_some n (leaf l) e = e
  set_entry_some n (node byte bit entry child) e = e

  pub store_below_some :
      (l : Leaf V) (m : Key) (diff sh : ℕ) (t : Tree V)
      → is_null (store_below l m diff sh t) ≡ false
  unfolding store_below new_subtree
  store_below_some l m diff sh null = refl
  store_below_some l m diff sh (leaf old) = ground arith
  store_below_some l m diff sh (node byte bit entry child) = ground arith
