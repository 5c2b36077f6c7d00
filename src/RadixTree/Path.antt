-- ===== src/RadixTree/Path.antt =====
-- Storing at the place that `follow_path` finds, as a recursion on the tree.
use native.Mathlib.Decide.{dec_lt}
use libpmemobj_cpp.Common.{
  ℕ, ◌≤◌, ◌<◌, ◌≡◌, refl, ap, sym, ◌∙◌, arith, Bool, true, false, if◌then◌else◌, inl, inr,
  Bool-cases, List, [], ◌∷◌, ltb→lt,
}
use libpmemobj_cpp.RadixTree.{
  Key, Leaf, slice_index, Tree, null, leaf, node, is_null, put, NodeDesc, descend, goes_on,
  follow_path, new_subtree,
}
use libpmemobj_cpp.RadixTree.Slices.{position}
use libpmemobj_cpp.RadixTree.Keys.{Divergence, goes_on_lem}
use libpmemobj_cpp.RadixTree.Shape.{IsTree}
use libpmemobj_cpp.RadixTree.Descent.{null_of}

-- A node at which the loop goes on has a byte that both keys have.
pub goes_on_byte :
    (k m : Key) (diff sh d limit byte bit : ℕ)
    → Divergence k m diff sh d limit
    → position byte bit < limit
    → byte < k.size
goes_on_byte k m diff sh d limit byte bit h p = elim h.split [
  | inl (whole, sh8, at, edge) ↦ ground (arith, whole, at, edge, p)
  | inr (kin, lin, two, at, edge, apart) ↦ ground (arith, kin, at, edge, p)
]

module _ {V : Type 0} where
  -- The store at the first place below which `follow_path` does not go on.
  unfoldable pub store_below : Leaf V → Key → ℕ → ℕ → Tree V → Tree V
  unfolding new_subtree goes_on
  store_below l m diff sh null = new_subtree l m diff sh null
  store_below l m diff sh (leaf old) = new_subtree l m diff sh (leaf old)
  store_below l m diff sh (node byte bit entry child) =
      let i = slice_index (l.key.byte byte) bit in
      let deeper = store_below l m diff sh (child i) in
      if goes_on (node byte bit entry child) diff sh
      then node byte bit entry (put i deeper child)
      else new_subtree l m diff sh (node byte bit entry child)

  module _ (l : Leaf V) (m : Key) (diff sh : ℕ) where
    stored : NodeDesc V → List (NodeDesc V) → Tree V
    stored last path =
        let e = follow_path last path diff sh in e.slot (new_subtree l m diff sh e.at)

    stored_stop :
        (last here : NodeDesc V) (rest : List (NodeDesc V))
        → goes_on here.at diff sh ≡ false
        → stored last (here ∷ rest) ≡ here.slot (new_subtree l m diff sh here.at)
    unfolding stored follow_path
    stored_stop last here rest e =
        ap
          (λ (b : Bool).
            let r = if b then follow_path here rest diff sh else here in
            r.slot (new_subtree l m diff sh r.at))
          e

    stored_more :
        (last here : NodeDesc V) (rest : List (NodeDesc V))
        → goes_on here.at diff sh ≡ true
        → stored last (here ∷ rest) ≡ stored here rest
    unfolding stored follow_path
    stored_more last here rest e =
        ap
          (λ (b : Bool).
            let r = if b then follow_path here rest diff sh else here in
            r.slot (new_subtree l m diff sh r.at))
          e

    module _ (slot : Tree V → Tree V) (byte bit : ℕ) (entry : Tree V) (child : ℕ → Tree V) where
      abbrev here : NodeDesc V
      here = record { slot = slot; at = node byte bit entry child }

      abbrev next : ℕ
      next = slice_index (l.key.byte byte) bit

      abbrev slot_i : Tree V → Tree V
      slot_i n = slot (node byte bit entry (put next n child))

      path_out : l.key.size ≤ byte → (descend l.key slot (node byte bit entry child)).1 ≡ here ∷ []
      unfolding descend
      path_out p = ground arith

      path_empty :
          byte < l.key.size
          → is_null (child next) ≡ true
          → (descend l.key slot (node byte bit entry child)).1
            ≡ here ∷ record { slot = slot_i; at = null } ∷ []
      unfolding descend
      path_empty p q = ground (arith, q)

      path_in :
          byte < l.key.size
          → is_null (child next) ≡ false
          → (descend l.key slot (node byte bit entry child)).1
            ≡ here ∷ (descend l.key slot_i (child next)).1
      unfolding descend
      path_in p q = ground (arith, q)

      path_head :
          (rest : List (NodeDesc V)) × ((descend l.key slot (node byte bit entry child)).1
            ≡ here ∷ rest)
      path_head = elim (dec_lt byte l.key.size) [
        | no p ↦ ([], path_out (omega arith))
        | yes p ↦ elim (Bool-cases (is_null (child next))) [
          | inl q ↦ (record { slot = slot_i; at = null } ∷ [], path_empty p q)
          | inr q ↦ ((descend l.key slot_i (child next)).1, path_in p q)
        ]
      ]

  stored-new_subtree :
      (l : Leaf V) (m : Key) (diff sh : ℕ) (last : NodeDesc V) (slot : Tree V → Tree V) (t : Tree V)
      → (descend l.key slot t).1 ≡ record { slot = slot; at = t } ∷ []
      → goes_on t diff sh ≡ false
      → stored l m diff sh last (descend l.key slot t).1 ≡ slot (new_subtree l m diff sh t)
  stored-new_subtree l m diff sh last slot t path stop =
      ap (stored l m diff sh last) path
      ∙ stored_stop l m diff sh last (record { slot = slot; at = t }) [] stop

  stored-descend :
      (l : Leaf V) (m : Key) (diff sh d limit : ℕ)
      → Divergence l.key m diff sh d limit
      → (t : Tree V) (slot : Tree V → Tree V) (last : NodeDesc V) → IsTree t
      → stored l m diff sh last (descend l.key slot t).1 ≡ slot (store_below l m diff sh t)
  unfolding store_below descend
  stored-descend l m diff sh d limit h null slot last s =
      stored-new_subtree l m diff sh last slot null refl refl
  stored-descend l m diff sh d limit h (leaf old) slot last s =
      stored-new_subtree l m diff sh last slot (leaf old) refl refl
  stored-descend l m diff sh d limit h (node byte bit entry child) slot last s =
      let n = node byte bit entry child in
      let first = here l m diff sh slot byte bit entry child in
      let i = next l m diff sh slot byte bit entry child in
      let deeper = slot_i l m diff sh slot byte bit entry child in
      let on = goes_on_lem l.key m diff sh d limit h byte bit entry child s.0.half in
      elim (Bool-cases (goes_on n diff sh)) [
        | inr stop ↦
            let (rest, path) = path_head l m diff sh slot byte bit entry child in
            ap (stored l m diff sh last) path
            ∙ stored_stop l m diff sh last first rest stop
            ∙ ap slot (ground (arith, stop))
        | inl more ↦
            let inside =
              goes_on_byte l.key m diff sh d limit byte bit h
                (ltb→lt (position byte bit) limit (sym on ∙ more)) in
            let below : store_below l m diff sh n
                ≡ node byte bit entry (put i (store_below l m diff sh (child i)) child) =
              ground (arith, more) in
            elim (Bool-cases (is_null (child i))) [
              | inl q ↦
                  ap (stored l m diff sh last)
                    (path_empty l m diff sh slot byte bit entry child inside q)
                  ∙ stored_more l m diff sh last first (record { slot = deeper; at = null } ∷ [])
                      more
                  ∙ stored_stop l m diff sh first (record { slot = deeper; at = null }) [] refl
                  ∙ ap (λ t. deeper (store_below l m diff sh t)) (sym (null_of (child i) q))
                  ∙ ap slot (sym below)
              | inr q ↦
                  ap (stored l m diff sh last)
                    (path_in l m diff sh slot byte bit entry child inside q)
                  ∙ stored_more l m diff sh last first (descend l.key deeper (child i)).1 more
                  ∙ stored-descend l m diff sh d limit h (child i) deeper first (s.2 i)
                  ∙ ap slot (sym below)
            ]
      ]

  -- What is stored through the path is stored at that place.
  pub follow_path-descend :
      (l : Leaf V) (m : Key) (diff sh d limit : ℕ)
      → Divergence l.key m diff sh d limit
      → (t : Tree V) (slot : Tree V → Tree V) (last : NodeDesc V) → IsTree t
      → let e = follow_path last (descend l.key slot t).1 diff sh in
        e.slot (new_subtree l m diff sh e.at) ≡ slot (store_below l m diff sh t)
  unfolding stored
  follow_path-descend l m diff sh d limit h t slot last s =
      stored-descend l m diff sh d limit h t slot last s
