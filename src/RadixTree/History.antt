-- ===== src/RadixTree/History.antt =====
-- Every sequence of operations of the map, against the function from keys to leaves that it promises.
use libpmemobj_cpp.Common.{
  ◌≡◌, refl, ap, sym, ◌∙◌, subst, arith, Bool, true, false, if◌then◌else◌, inl, inr, Option-cases,
  Option, none, some, List, [], ◌∷◌,
}
use libpmemobj_cpp.RadixTree.{Key, Leaf, keys_equal, null, internal_find}
use libpmemobj_cpp.RadixTree.Keys.{AreBytes}
use libpmemobj_cpp.RadixTree.Counting.{leaves}
use libpmemobj_cpp.RadixTree.AssignPreservation.{leaves-replace, replace-IsTree}
use libpmemobj_cpp.RadixTree.Assign.{assigned, assign_found, find_replaced}
use libpmemobj_cpp.RadixTree.Map.{assign_val, RadixMap, try_emplace, insert_or_assign, erase_key}
use libpmemobj_cpp.RadixTree.{internal_emplace}
use libpmemobj_cpp.RadixTree.Refinement.{inserted, internal_emplace_lem}
use libpmemobj_cpp.RadixTree.EraseRefinement.{erase_lem}
use libpmemobj_cpp.RadixTree.Run.{IsMap, try_emplace-IsMap, erase_key-IsMap}

pub data Operation (V : Type 0) : Type 0 where
  emplacing : Leaf V → Operation V
  assigning : Leaf V → Operation V
  erasing : Key → Operation V

module _ {V : Type 0} where
  abbrev pub key_of : Operation V → Key
  key_of (emplacing l) = l.key
  key_of (assigning l) = l.key
  key_of (erasing k) = k

  unfoldable pub perform : Operation V → RadixMap V → RadixMap V
  unfolding try_emplace insert_or_assign erase_key
  perform (emplacing l) m = (try_emplace l m).0
  perform (assigning l) m = (insert_or_assign l m).0
  perform (erasing k) m = (erase_key k m).0

  abbrev pub empty_map : RadixMap V
  empty_map = record { root = null; size = 0 }

  unfoldable pub perform_all : List (Operation V) → RadixMap V → RadixMap V
  unfolding perform
  perform_all [] m = m
  perform_all (o ∷ rest) m = perform_all rest (perform o m)

  -- The leaf of an assignment: the key stays as it was stored.
  abbrev pub renewed : Leaf V → Option (Leaf V) → Leaf V
  renewed l none = l
  renewed l (some m) = assigned m l.value

  -- What an operation promises to do to the map as a function.
  unfoldable pub promised : Operation V → (Key → Option (Leaf V)) → Key → Option (Leaf V)
  promised (emplacing l) f j = inserted l f j
  promised (assigning l) f j = if keys_equal j l.key then some (renewed l (f l.key)) else f j
  promised (erasing k) f j = if keys_equal j k then none else f j

  unfoldable pub promised_all : List (Operation V) → (Key → Option (Leaf V)) → Key → Option (Leaf V)
  unfolding promised
  promised_all [] f = f
  promised_all (o ∷ rest) f = promised_all rest (promised o f)

  abbrev pub HaveBytes : List (Operation V) → Type 0
  HaveBytes [] = Unit {0}
  HaveBytes (o ∷ rest) = AreBytes (key_of o) × HaveBytes rest

  -- The map is well formed and its searches compute the function.
  abbrev pub Represents : RadixMap V → (Key → Option (Leaf V)) → Type 0
  Represents m f = IsMap m × ((j : Key) → AreBytes j → internal_find j m.root ≡ f j)

  emplacing-Represents :
      (l : Leaf V) (m : RadixMap V) (f : Key → Option (Leaf V))
      → AreBytes l.key
      → Represents m f
      → Represents (try_emplace l m).0 (promised (emplacing l) f)
  unfolding try_emplace promised
  emplacing-Represents l m f hl h = (
    try_emplace-IsMap l m hl h.0,
    λ j hj.
        (internal_emplace_lem l m.root hl h.0.shape).1 j hj
        ∙ ground (arith, h.1 l.key hl, h.1 j hj),
  )

  erasing-Represents :
      (k : Key) (m : RadixMap V) (f : Key → Option (Leaf V))
      → AreBytes k
      → Represents m f
      → Represents (erase_key k m).0 (promised (erasing k) f)
  unfolding erase_key promised
  erasing-Represents k m f hk h = (
    erase_key-IsMap k m hk h.0,
    λ j hj. (erase_lem k m.root hk h.0.shape).1 j hj ∙ ground (arith, h.1 j hj),
  )

  -- The value of a key that is there is assigned.
  assigned-Represents :
      (l old : Leaf V) (m : RadixMap V) (f : Key → Option (Leaf V))
      → AreBytes l.key
      → Represents m f
      → internal_find l.key m.root ≡ some old
      → Represents
          (record { root = assign_val l.key l.value m.root; size = m.size })
          (promised (assigning l) f)
  unfolding promised
  assigned-Represents l old m f hl h found =
      let assigned_root = assign_found l.key l.value m.root old found in
      let known : f l.key ≡ some old = sym (h.1 l.key hl) ∙ found in
      subst (λ t. Represents (record { root = t; size = m.size }) (promised (assigning l) f))
        (sym assigned_root)
        (
          record {
            shape = replace-IsTree l.key l.value m.root old h.0.shape found;
            counted = omega (arith, h.0.counted, leaves-replace l.key l.value m.root);
          },
          λ j hj.
              find_replaced l.key j l.value m.root old hl hj h.0.shape found
              ∙ ap (λ r. if keys_equal j l.key then some (assigned old l.value) else r) (h.1 j hj)
              ∙ ap (λ r. if keys_equal j l.key then some (renewed l r) else f j) (sym known),
        )

  assigning-Represents :
      (l : Leaf V) (m : RadixMap V) (f : Key → Option (Leaf V))
      → AreBytes l.key
      → Represents m f
      → Represents (insert_or_assign l m).0 (promised (assigning l) f)
  unfolding insert_or_assign promised
  assigning-Represents l m f hl h =
      let emplaced_map = emplacing-Represents l m f hl h in
      let refined = internal_emplace_lem l m.root hl h.0.shape in
      let m1 = (try_emplace l m).0 in
      let assign : Bool → RadixMap V = λ b. record {
        root = if b then m1.root else assign_val l.key l.value m1.root;
        size = m1.size;
      } in
      elim (Option-cases (internal_find l.key m.root)) [
        | inl absent ↦
            let is_new : (internal_emplace l m.root).1 ≡ true = ground (arith, refined.0, absent) in
            let unknown : f l.key ≡ none = sym (h.1 l.key hl) ∙ absent in
            subst (λ b. Represents (assign b) (promised (assigning l) f)) (sym is_new)
              (emplaced_map.0, λ j hj. emplaced_map.1 j hj ∙ ground (arith, unknown))
        | inr (old, found) ↦
            let is_old : (internal_emplace l m.root).1 ≡ false = ground (arith, refined.0, found) in
            let known : f l.key ≡ some old = sym (h.1 l.key hl) ∙ found in
            let kept : (j : Key) → AreBytes j → internal_find j m1.root ≡ f j =
              λ j hj. emplaced_map.1 j hj ∙ ground (arith, known) in
            subst (λ b. Represents (assign b) (promised (assigning l) f)) (sym is_old)
              (assigned-Represents l old m1 f hl (emplaced_map.0, kept) (kept l.key hl ∙ known))
      ]

  perform-Represents :
      (o : Operation V) (m : RadixMap V) (f : Key → Option (Leaf V))
      → AreBytes (key_of o)
      → Represents m f
      → Represents (perform o m) (promised o f)
  unfolding perform
  perform-Represents (emplacing l) m f hk h = emplacing-Represents l m f hk h
  perform-Represents (assigning l) m f hk h = assigning-Represents l m f hk h
  perform-Represents (erasing k) m f hk h = erasing-Represents k m f hk h

  perform_all-Represents :
      (os : List (Operation V)) (m : RadixMap V) (f : Key → Option (Leaf V))
      → HaveBytes os
      → Represents m f
      → Represents (perform_all os m) (promised_all os f)
  unfolding perform_all promised_all
  perform_all-Represents [] m f hk h = h
  perform_all-Represents (o ∷ rest) m f hk h =
      perform_all-Represents rest (perform o m) (promised o f) hk.1
        (perform-Represents o m f hk.0 h)

  -- After any sequence of try_emplace, insert_or_assign and erase by key on an empty radix tree,
  -- with keys of bytes: the tree is well formed; size_ is the number of its leaves, as a 64-bit
  -- word; and every search finds what the same updates of a function from keys to leaves promise.
  pub operations_refine :
      (os : List (Operation V)) (j : Key)
      → HaveBytes os
      → AreBytes j
      → IsMap (perform_all os empty_map)
        × (internal_find j (perform_all os empty_map).root ≡ promised_all os (λ k. none) j)
  unfolding internal_find leaves
  operations_refine os j hk hj =
      let (shape, found) =
        perform_all-Represents os empty_map (λ k. none) hk
          (record { shape = tt; counted = refl }, λ k hk. refl) in
      (shape, found j hj)
