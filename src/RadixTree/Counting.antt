-- ===== src/RadixTree/Counting.antt =====
-- How many leaves a radix tree has after an insertion and after an erasure.
use native.Mathlib.Decide.{ℕ_discrete}
use libpmemobj_cpp.Common.{ℕ, zero, suc, ◌+◌, ◌<◌, ◌≡◌, ◌≢◌, refl, ap, ◌∙◌, arith, true, inl, inr}
use libpmemobj_cpp.RadixTree.{slnodes, Tree, null, leaf, node, is_null, put}
use libpmemobj_cpp.RadixTree.Descent.{null_of}
use libpmemobj_cpp.RadixTree.Erase.{collapse}
use libpmemobj_cpp.RadixTree.Collapse.{collapse_lem}

unfoldable pub total : (ℕ → ℕ) → ℕ → ℕ
total f zero = 0
total f (suc n) = total f n + f n

pub total-zero : (f : ℕ → ℕ) (n : ℕ) → ((i : ℕ) → i < n → f i ≡ 0) → total f n ≡ 0
unfolding total
total-zero f zero h = refl
total-zero f (suc n) h = omega (arith, total-zero f n (λ i p. h i (omega arith)), h n (omega arith))

total_one : (f : ℕ → ℕ) (n j : ℕ) → j < n → ((i : ℕ) → i < n → i ≢ j → f i ≡ 0) → total f n ≡ f j
unfolding total
total_one f zero j p h = absurd (omega arith)
total_one f (suc n) j p h = elim (ℕ_discrete n j) [
  | yes at ↦ omega (arith, total-zero f n (λ i q. h i (omega arith) (omega arith)), ap f at)
  | no off ↦
      omega (arith, total_one f n j (omega arith) (λ i q. h i (omega arith)), h n (omega arith) off)
]

total_same : (f g : ℕ → ℕ) (n : ℕ) → ((i : ℕ) → i < n → f i ≡ g i) → total f n ≡ total g n
unfolding total
total_same f g zero h = refl
total_same f g (suc n) h =
    omega (arith, total_same f g n (λ i p. h i (omega arith)), h n (omega arith))

-- A change at one index.
total_change :
    (f g : ℕ → ℕ) (n j : ℕ)
    → j < n
    → ((i : ℕ) → i ≢ j → f i ≡ g i)
    → total f n + g j ≡ total g n + f j
unfolding total
total_change f g zero j p h = absurd (omega arith)
total_change f g (suc n) j p h = elim (ℕ_discrete n j) [
  | yes at ↦ omega (arith, total_same f g n (λ i q. h i (omega arith)), ap f at, ap g at)
  | no off ↦ omega (arith, total_change f g n j (omega arith) h, h n off)
]

module _ {V : Type 0} where
  unfoldable pub leaves : Tree V → ℕ
  unfolding total
  leaves null = 0
  leaves (leaf l) = 1
  leaves (node byte bit entry child) = leaves entry + total (λ i. leaves (child i)) slnodes

  pub leaves-put :
      (i : ℕ) (t : Tree V) (child : ℕ → Tree V)
      → i < slnodes
      → total (λ j. leaves (put i t child j)) slnodes + leaves (child i)
        ≡ total (λ j. leaves (child j)) slnodes + leaves t
  leaves-put i t child p =
      let here : leaves (put i t child i) ≡ leaves t = ground arith in
      omega (
        arith,
        here,
        total_change (λ j. leaves (put i t child j)) (λ j. leaves (child j)) slnodes i p
            (λ j off. ap leaves (ground (arith, off))),
      )

  pub leaves-null : (t : Tree V) → is_null t ≡ true → leaves t ≡ 0
  unfolding leaves
  leaves-null t e = ap leaves (null_of t e)

  pub leaves-collapse :
      (byte bit : ℕ) (entry : Tree V) (child : ℕ → Tree V)
      → leaves (collapse (node byte bit entry child)) ≡ leaves (node byte bit entry child)
  unfolding leaves
  leaves-collapse byte bit entry child =
      let each = λ (i : ℕ). leaves (child i) in
      elim (collapse_lem byte bit entry child) [
        | inl (is, shared, some_child) ↦ ap leaves is
        | inr (inl (is, some_entry, empty)) ↦
            ap leaves is
            ∙ omega (arith, total-zero each slnodes (λ i p. leaves-null (child i) (empty i p)))
        | inr (inr (inl (is, no_entry, empty))) ↦
            ap leaves is
            ∙ omega (
              arith,
              leaves-null entry no_entry,
              total-zero each slnodes (λ i p. leaves-null (child i) (empty i p)),
            )
        | inr (inr (inr (j, low, is, some_j, no_entry, others))) ↦
            ap leaves is
            ∙ omega (
              arith,
              leaves-null entry no_entry,
              total_one each slnodes j low (λ i p off. leaves-null (child i) (others i p off)),
            )
      ]
