-- ===== src/RadixTree/Erase.antt =====
-- include/libpmemobj++/experimental/radix_tree.hpp: `erase`, from the leaf of an iterator upwards.
use libpmemobj_cpp.Common.{
  ℕ, zero, suc, ◌+◌, not, ◌&&◌, if◌then◌else◌, leb, Option, none, some, List, [], ◌∷◌,
}
use libpmemobj_cpp.RadixTree.{
  Key, Leaf, slnodes, slice_index, path_length_equal, keys_equal, Tree, null, leaf, node, is_null,
  put,
}

-- Where `find_child` finds a subtree in its parent.
pub data Slot : Type 0 where
  embedded_entry : Slot
  child_at : ℕ → Slot

-- A `parent` pointer, to a node, and the slot of the node that holds the subtree it comes from.
pub record Parent (V : Type 0) : Type 0 where
  pub byte : ℕ
  pub bit : ℕ
  pub entry : Tree V
  pub child : ℕ → Tree V
  pub slot : Slot

-- `store(*parent->find_child(n), m)`
unfoldable pub store_child : {V : Type 0} → Parent V → Tree V → Tree V
store_child p m = elim p.slot [
  | embedded_entry ↦ node p.byte p.bit m p.child
  | child_at i ↦ node p.byte p.bit p.entry (put i m p.child)
]

module _ {V : Type 0} where
  -- `internal_find`, with the parents of the leaf from the lowest one up.
  unfoldable pub locate : Key → List (Parent V) → Tree V → Option (Leaf V × List (Parent V))
  unfolding path_length_equal slice_index keys_equal
  locate key parents null = none
  locate key parents (leaf l) = if keys_equal key l.key then some (l, parents) else none
  locate key parents (node byte bit entry child) =
      let i = slice_index (key.byte byte) bit in
      let here : Slot → Parent V =
        λ s. record { byte = byte; bit = bit; entry = entry; child = child; slot = s } in
      let in_entry = locate key (here embedded_entry ∷ parents) entry in
      let in_child = locate key (here (child_at i) ∷ parents) (child i) in
      if path_length_equal key.size byte bit
      then in_entry
      else if leb key.size byte
      then none
      else in_child

  -- The loop of `erase` over `n` children from `i` on, with the `only_child` so far: none for the
  -- early return when there are two.
  unfoldable pub one_child : (ℕ → Tree V) → ℕ → ℕ → Tree V → Option (Tree V)
  one_child child i zero only = some only
  one_child child i (suc n) only =
      let c = child i in
      let rest = one_child child (i + 1) n (if is_null c then only else c) in
      if not (is_null c) && not (is_null only) then none else rest

  -- What `erase` leaves of the node above the leaf, once its slot is null: the node, or the only
  -- subtree that it still has.
  unfoldable pub collapse : Tree V → Tree V
  unfolding one_child
  collapse null = null
  collapse (leaf l) = leaf l
  collapse (node byte bit entry child) = elim (one_child child 0 slnodes null) [
    | none ↦ node byte bit entry child
    | some only ↦
        if not (is_null only) && not (is_null entry)
        then node byte bit entry child
        else if not (is_null entry)
        then entry
        else only
  ]

  -- A store into the slot that holds a subtree: the whole tree afterwards.
  unfoldable pub store_up : List (Parent V) → Tree V → Tree V
  unfolding store_child
  store_up [] m = m
  store_up (p ∷ parents) m = store_up parents (store_child p m)

  -- `erase(pos)`, for the parents of the leaf: the new root.
  unfoldable pub erase_at : List (Parent V) → Tree V
  unfolding store_child collapse store_up
  erase_at [] = null
  erase_at (p ∷ parents) = store_up parents (collapse (store_child p null))

  -- `erase(k)`, the new root and how many leaves were erased
  unfoldable pub erase : Key → Tree V → Tree V × ℕ
  unfolding locate erase_at
  erase k root = elim (locate k [] root) [ none ↦ (root, 0) | some found ↦ (erase_at found.1, 1) ]
