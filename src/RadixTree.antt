-- ===== src/RadixTree.antt =====
-- include/libpmemobj++/experimental/radix_tree.hpp: a map from byte strings to values as a tree that
-- branches on half bytes, with the runs between branches left out.
pub mod Slices
pub mod Keys
pub mod Shape
pub mod Descent
pub mod Path
pub mod Search
pub mod Insertion
pub mod Place
pub mod Emplace
pub mod Refinement
pub mod NewNodes
pub mod Kept
pub mod Erase
pub mod Collapse
pub mod Removal
pub mod Without
pub mod EraseRefinement
pub mod ErasePreservation
pub mod Map
pub mod Counting
pub mod Sizes
pub mod Assign
pub mod AssignPreservation
pub mod Run
pub mod History
mod Tests
pub mod Preservation
use Prim.Native.Nat.{bit_xor}
use libpmemobj_cpp.Common.{
  ℕ, zero, suc, ◌+◌, ◌-◌, ◌/◌, ◌%◌, ◌^◌, min, bit_and, ◌==◌, leb, ltb, if◌then◌else◌, Bool, true,
  false, not, ◌&&◌, ◌||◌, Option, none, some, List, [], ◌∷◌,
}
use libpmemobj_cpp.Common.Words.{sub64}
use libpmemobj_cpp.Math.{mssb_index}

-- What the tree needs of a key: the `size()` and `operator[]` of its `bytes_view`.
pub record Key : Type 0 where
  pub size : ℕ
  pub byte : ℕ → ℕ

-- SLNODES, NIB, SLICE_MASK of a `bitn_t`, and FIRST_NIB
abbrev pub slnodes : ℕ
slnodes = 16

abbrev pub nib : ℕ
nib = 15

abbrev pub slice_mask : ℕ
slice_mask = 252

abbrev pub first_nib : ℕ
first_nib = 4

unfoldable pub slice_index : ℕ → ℕ → ℕ
slice_index b bit = bit_and (b / 2 ^ bit) nib

-- The loop of `prefix_diff`, for at most `n` bytes from `diff` on
unfoldable pub diff_loop : Key → Key → ℕ → ℕ → ℕ
diff_loop lhs rhs zero diff = diff
diff_loop lhs rhs (suc n) diff =
    let rest = diff_loop lhs rhs n (diff + 1) in
    if lhs.byte diff == rhs.byte diff then rest else diff

-- `prefix_diff(lhs, rhs)`, with an offset of 0
unfoldable pub prefix_diff : Key → Key → ℕ
unfolding diff_loop
prefix_diff lhs rhs = diff_loop lhs rhs (min lhs.size rhs.size) 0

-- `bit_diff`
unfoldable pub bit_diff : Key → Key → ℕ → ℕ
unfolding mssb_index
bit_diff leaf_key key diff =
    if ltb diff (min leaf_key.size key.size)
    then bit_and (mssb_index (bit_xor (leaf_key.byte diff) (key.byte diff))) slice_mask
    else 8

-- `compare(k1, k2) == 0`: the difference of the lengths becomes an int.
unfoldable pub compares_equal : Key → Key → Bool
unfolding prefix_diff
compares_equal k1 k2 =
    let ret = prefix_diff k1 k2 in
    if not (ret == min k1.size k2.size)
    then k1.byte ret == k2.byte ret
    else sub64 k1.size k2.size % 2 ^ 32 == 0

unfoldable pub keys_equal : Key → Key → Bool
unfolding compares_equal
keys_equal k1 k2 = k1.size == k2.size && compares_equal k1 k2

unfoldable pub path_length_equal : ℕ → ℕ → ℕ → Bool
path_length_equal key_size byte bit = byte == key_size && bit == first_nib

pub record Leaf (V : Type 0) : Type 0 where
  pub key : Key
  pub value : V

-- A `pointer_type`: null, to a leaf, or to a node with its `byte`, `bit`, `embedded_entry` and the
-- `child` array. (The `parent` pointers repeat the shape of the tree.)
pub data Tree (V : Type 0) : Type 0 where
  null : Tree V
  leaf : Leaf V → Tree V
  node : ℕ → ℕ → Tree V → (ℕ → Tree V) → Tree V

abbrev pub is_null : {V : Type 0} → Tree V → Bool
is_null null = true
is_null (leaf l) = false
is_null (node byte bit entry child) = false

-- `get_leaf`, for a pointer to a leaf
abbrev pub get_leaf : {V : Type 0} → Tree V → Option (Leaf V)
get_leaf null = none
get_leaf (leaf l) = some l
get_leaf (node byte bit entry child) = none

-- `store(node->child[i], n)`
abbrev pub put : {V : Type 0} → ℕ → Tree V → (ℕ → Tree V) → ℕ → Tree V
put i n child j = if i == j then n else child j

-- A `node_desc`. A slot is what a store into it makes of the whole tree.
pub record NodeDesc (V : Type 0) : Type 0 where
  pub slot : Tree V → Tree V
  pub at : Tree V

-- `!is_leaf(n) && path_length_equal(key_size, n)`, and `store(n->embedded_entry, ...)`
abbrev pub embeds : {V : Type 0} → ℕ → Tree V → Bool
embeds key_size null = false
embeds key_size (leaf l) = false
embeds key_size (node byte bit entry child) = byte == key_size && bit == first_nib

abbrev pub set_entry : {V : Type 0} → Tree V → Tree V → Tree V
set_entry m null = null
set_entry m (leaf l) = leaf l
set_entry m (node byte bit entry child) = node byte bit m child

module _ {V : Type 0} where
  -- `internal_find`
  unfoldable pub internal_find : Key → Tree V → Option (Leaf V)
  unfolding path_length_equal slice_index keys_equal
  internal_find key null = none
  internal_find key (leaf l) = if keys_equal key l.key then some l else none
  internal_find key (node byte bit entry child) =
      let in_entry = internal_find key entry in
      let in_child = internal_find key (child (slice_index (key.byte byte) bit)) in
      if path_length_equal key.size byte bit
      then in_entry
      else if leb key.size byte
      then none
      else in_child

  -- The loop of `any_leftmost_leaf` over `n` children from `i` on: what was found below the first one.
  unfoldable pub first_child : (ℕ → Tree V) → (ℕ → Option (Leaf V)) → ℕ → ℕ → Option (Leaf V)
  first_child child below i zero = none
  first_child child below i (suc n) =
      let rest = first_child child below (i + 1) n in if is_null (child i) then rest else below i

  -- `any_leftmost_leaf`
  unfoldable pub any_leftmost_leaf : ℕ → Tree V → Option (Leaf V)
  any_leftmost_leaf min_depth null = none
  any_leftmost_leaf min_depth (leaf l) = some l
  any_leftmost_leaf min_depth (node byte bit entry child) =
      let below = first_child child (λ i. any_leftmost_leaf min_depth (child i)) 0 slnodes in
      if not (is_null entry) && leb min_depth byte then get_leaf entry else below

  -- `descend`, from a pointer that is held in `slot`: the leaf and the path.
  unfoldable pub descend : Key → (Tree V → Tree V) → Tree V → Option (Leaf V) × List (NodeDesc V)
  unfolding slice_index any_leftmost_leaf
  descend key slot null = (none, record { slot = slot; at = null } ∷ [])
  descend key slot (leaf l) = (some l, record { slot = slot; at = leaf l } ∷ [])
  descend key slot (node byte bit entry child) =
      let n = node byte bit entry child in
      let here : NodeDesc V = record { slot = slot; at = n } in
      let i = slice_index (key.byte byte) bit in
      let slot_i = λ (m : Tree V). slot (node byte bit entry (put i m child)) in
      let further = descend key slot_i (child i) in
      if ltb byte key.size
      then if is_null (child i)
        then (any_leftmost_leaf key.size n, here ∷ record { slot = slot_i; at = null } ∷ [])
        else (further.0, here ∷ further.1)
      else (any_leftmost_leaf key.size n, here ∷ [])

  -- The loop condition of `follow_path`
  unfoldable pub goes_on : Tree V → ℕ → ℕ → Bool
  goes_on null diff sh = false
  goes_on (leaf l) diff sh = false
  goes_on (node byte bit entry child) diff sh = ltb byte diff || (byte == diff && leb sh bit)

  -- `follow_path`. The path that `descend` returns has an entry at which the loop stops.
  unfoldable pub follow_path : NodeDesc V → List (NodeDesc V) → ℕ → ℕ → NodeDesc V
  unfolding goes_on
  follow_path last [] diff sh = last
  follow_path last (d ∷ path) diff sh =
      let rest = follow_path d path diff sh in if goes_on d.at diff sh then rest else d

  -- What `internal_emplace` stores into the slot that holds `n`, for the leaf `l`
  unfoldable pub new_subtree : Leaf V → Key → ℕ → ℕ → Tree V → Tree V
  unfolding slice_index
  new_subtree l leaf_key diff sh n =
      let no_child = λ (i : ℕ). null in
      let old_at = λ (bit : ℕ). slice_index (leaf_key.byte diff) bit in
      let new_at = λ (bit : ℕ). slice_index (l.key.byte diff) bit in
      if is_null n
      then leaf l
      else if diff == l.key.size
      then if embeds l.key.size n
        then set_entry (leaf l) n
        else node diff first_nib (leaf l) (put (old_at first_nib) n no_child)
      else if diff == leaf_key.size
      then node diff first_nib n (put (new_at first_nib) (leaf l) no_child)
      else node diff sh null (put (new_at sh) (leaf l) (put (old_at sh) n no_child))

  -- `internal_emplace`: the new root, and whether the leaf is new. The leaf that `descend` returns
  -- is not null.
  unfoldable pub internal_emplace : Leaf V → Tree V → Tree V × Bool
  unfolding descend follow_path prefix_diff bit_diff new_subtree
  internal_emplace l null = (leaf l, true)
  internal_emplace l root =
      let (found, path) = descend l.key (λ n. n) root in
      let start : NodeDesc V = record { slot = λ n. n; at = root } in
      elim found [
        | none ↦ (root, false)
        | some old ↦
            let diff = prefix_diff l.key old.key in
            let sh = bit_diff old.key l.key diff in
            let d = follow_path start path diff sh in
            if diff == l.key.size && old.key.size == l.key.size
            then (root, false)
            else (d.slot (new_subtree l old.key diff sh d.at), true)
      ]
