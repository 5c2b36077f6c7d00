-- ===== src/RadixTree/AssignPreservation.antt =====
-- An assignment of a value keeps the shape of a radix tree and its number of leaves.
use native.Mathlib.Decide.{dec_lt}
use libpmemobj_cpp.Common.{
  ℕ, ◌≡◌, refl, ap, sym, ◌∙◌, subst, arith, false, inl, inr, Bool-cases, some,
}
use libpmemobj_cpp.RadixTree.{
  Key, Leaf, slice_index, path_length_equal, Tree, null, leaf, node, is_null, put, internal_find,
}
use libpmemobj_cpp.RadixTree.Slices.{position}
use libpmemobj_cpp.RadixTree.Shape.{All, All-imp, Agree, IsNode, IsTree}
use libpmemobj_cpp.RadixTree.NewNodes.{either, put_lem, slice_index_small}
use libpmemobj_cpp.RadixTree.ErasePreservation.{thinner}
use libpmemobj_cpp.RadixTree.Counting.{leaves, leaves-put}
use libpmemobj_cpp.RadixTree.Assign.{assigned, replace}

module _ {V : Type 0} where
  -- The keys are those that were there.
  replace-All :
      (P : Key → Type 0) (k : Key) (v : V) (t : Tree V)
      → All (λ l. P l.key) t
      → All (λ l. P l.key) (replace k v t)
  unfolding replace
  replace-All P k v null h = tt
  replace-All P k v (leaf l) h = h
  replace-All P k v (node byte bit entry child) h =
      let i = slice_index (k.byte byte) bit in
      either (All (λ l. P l.key)) (path_length_equal k.size byte bit) _ _
        (replace-All P k v entry h.0, h.1)
        (
          h.0,
          put_lem (λ _. All (λ l. P l.key)) i (replace k v (child i)) child
              (replace-All P k v (child i) (h.1 i)) h.1,
        )

  is_null-replace : (k : Key) (v : V) (t : Tree V) → is_null (replace k v t) ≡ is_null t
  unfolding replace
  is_null-replace k v null = refl
  is_null-replace k v (leaf l) = refl
  is_null-replace k v (node byte bit entry child) = ground arith

  found_some : (k : Key) (t : Tree V) (l : Leaf V) → internal_find k t ≡ some l → is_null t ≡ false
  unfolding internal_find
  found_some k null l found = absurd (ground (arith, found))
  found_some k (leaf e) l found = refl
  found_some k (node byte bit entry child) l found = refl

  pub leaves-replace : (k : Key) (v : V) (t : Tree V) → leaves (replace k v t) ≡ leaves t
  unfolding replace leaves
  leaves-replace k v null = refl
  leaves-replace k v (leaf l) = refl
  leaves-replace k v (node byte bit entry child) =
      let n = node byte bit entry child in
      let i = slice_index (k.byte byte) bit in
      let rest = replace k v (child i) in
      let in_entry = leaves-replace k v entry in
      let in_child = leaves-replace k v (child i) in
      elim (Bool-cases (path_length_equal k.size byte bit)) [
        | inl at ↦
            let made : replace k v n ≡ node byte bit (replace k v entry) child =
              ground (arith, at) in
            ap leaves made ∙ omega (arith, in_entry)
        | inr at ↦
            let made : replace k v n ≡ node byte bit entry (put i rest child) =
              ground (arith, at) in
            ap leaves made
            ∙ omega (arith, in_child, leaves-put i rest child (slice_index_small (k.byte byte) bit))
      ]

  entry_replaced :
      (k : Key) (v : V) (byte bit : ℕ) (entry : Tree V) (child : ℕ → Tree V)
      → IsNode byte bit entry child
      → IsNode byte bit (replace k v entry) child
  unfolding replace
  entry_replaced k v byte bit entry child h =
      let n = node byte bit entry child in
      let m = node byte bit (replace k v entry) child in
      let agree = λ (x y : Key). Agree (position byte bit) x y in
      let others : (x : Key) → All (λ l. agree x l.key) n → All (λ l. agree x l.key) m =
        λ x a. (replace-All (agree x) k v entry a.0, a.1) in
      record {
        half = h.half;
        embedded = elim h.embedded [
          | inl no_entry ↦ inl (ap (replace k v) no_entry)
          | inr (e, is, size, upper) ↦ inr (assigned e v, ap (replace k v) is, size, upper)
        ];
        branches = h.branches;
        agreed = (
          replace-All (λ x. All (λ l. agree x l.key) m) k v entry
              (All-imp _ (λ l. All (λ y. agree l.key y.key) m) (λ l. others l.key) entry
                h.agreed.0),
          λ i.
              All-imp _ (λ l. All (λ y. agree l.key y.key) m) (λ l. others l.key) (child i)
                (h.agreed.1 i),
        );
        some_child = h.some_child;
        two = elim h.two [ inl e ↦ inl (is_null-replace k v entry ∙ e) | inr pair ↦ inr pair ];
      }

  pub replace-IsTree :
      (k : Key) (v : V) (t : Tree V) (l : Leaf V)
      → IsTree t
      → internal_find k t ≡ some l
      → IsTree (replace k v t)
  unfolding replace internal_find
  replace-IsTree k v null l h found = tt
  replace-IsTree k v (leaf e) l h found = h
  replace-IsTree k v (node byte bit entry child) l h found =
      let n = node byte bit entry child in
      let i = slice_index (k.byte byte) bit in
      let rest = replace k v (child i) in
      elim (Bool-cases (path_length_equal k.size byte bit)) [
        | inl at ↦
            let made : replace k v n ≡ node byte bit (replace k v entry) child =
              ground (arith, at) in
            subst IsTree (sym made) (
              entry_replaced k v byte bit entry child h.0,
              replace-IsTree k v entry l h.1 (ground (arith, found, at)),
              h.2,
            )
        | inr at ↦ elim (dec_lt byte k.size) [
          | yes p ↦
              let below : internal_find k (child i) ≡ some l = ground (arith, found, at, p) in
              let made : replace k v n ≡ node byte bit entry (put i rest child) =
                ground (arith, at) in
              let some_child : is_null (child i) ≡ false = found_some k (child i) l below in
              subst IsTree (sym made) (
                thinner byte bit entry child i rest h.0 (λ P. replace-All P k v (child i))
                    (is_null-replace k v (child i) ∙ some_child),
                h.1,
                put_lem (λ _. IsTree) i rest child (replace-IsTree k v (child i) l (h.2 i) below)
                    h.2,
              )
          | no p ↦ absurd (ground (arith, found, at, p))
        ]
      ]
