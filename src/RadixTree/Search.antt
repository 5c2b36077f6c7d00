-- ===== src/RadixTree/Search.antt =====
-- Searches at a node, by the half byte of the key there.
use libpmemobj_cpp.Common.{
  ℕ, ◌*◌, ◌≤◌, ◌<◌, ◌≡◌, ◌≢◌, refl, ap, ◌∙◌, arith, ◌==◌, leb, false, ◌&&◌, if◌then◌else◌, ◌⊎◌,
  Option, none, some,
}
use libpmemobj_cpp.RadixTree.{
  Key, Leaf, first_nib, path_length_equal, keys_equal, Tree, null, leaf, node, internal_find,
}
use libpmemobj_cpp.RadixTree.Slices.{nibble, position, slice_index-nibble}
use libpmemobj_cpp.RadixTree.Keys.{AreBytes, keys_equal_size, keys_equal-nibble}
use libpmemobj_cpp.RadixTree.Shape.{All, All-imp, internal_find_absent}

pub position_inside : (byte bit size : ℕ) → byte < size → position byte bit < 2 * size
position_inside byte bit size p = ground arith

module _ {V : Type 0} where
  -- A search in a node with the half byte of the key.
  pub find_in_node :
      (j : Key) (byte bit : ℕ) (entry : Tree V) (child : ℕ → Tree V)
      → AreBytes j
      → (bit ≡ 4) ⊎ (bit ≡ 0)
      → internal_find j (node byte bit entry child) ≡ (
          if byte == j.size && bit == first_nib
          then internal_find j entry
          else if leb j.size byte
          then none
          else internal_find j (child (nibble j (position byte bit))))
  unfolding internal_find path_length_equal
  find_in_node j byte bit entry child hj half =
      ap
        (λ (i : ℕ).
          if byte == j.size && bit == first_nib
          then internal_find j entry
          else if leb j.size byte
          then none
          else internal_find j (child i))
        (slice_index-nibble j byte bit (hj byte) half)

  -- What a search finds in a tree into which a leaf has gone, if it found `old` before.
  abbrev pub Updated : Leaf V → Key → Option (Leaf V) → Option (Leaf V) → Type 0
  Updated l j new old = new ≡ (if keys_equal j l.key then some l else old)

  pub find_leaf :
      (l : Leaf V) (j : Key)
      → internal_find j (leaf l) ≡ (if keys_equal j l.key then some l else none)
  unfolding internal_find
  find_leaf l j = refl

  pub find_null : (j : Key) → let t : Tree V = null in internal_find j t ≡ none
  unfolding internal_find
  find_null j = refl

  -- The leaves of a subtree that goes on past the half byte `d` of byte `diff`, where they have `i`.
  abbrev pub Behind : ℕ → ℕ → ℕ → Leaf V → Type 0
  Behind diff d i m = (diff < m.key.size) × (nibble m.key d ≡ i)

  pub short_absent :
      (j : Key) (diff d i : ℕ) (t : Tree V)
      → j.size ≤ diff
      → All (Behind diff d i) t
      → internal_find j t ≡ none
  short_absent j diff d i t p h = internal_find_absent j t (
      All-imp (Behind diff d i) (λ m. keys_equal j m.key ≡ false)
        (λ m b. keys_equal_size j m.key (omega (arith, b.0))) t h)

  pub elsewhere_absent :
      (j : Key) (diff d i : ℕ) (t : Tree V)
      → d < 2 * j.size
      → nibble j d ≢ i
      → All (Behind diff d i) t
      → internal_find j t ≡ none
  elsewhere_absent j diff d i t p e h = internal_find_absent j t (
      All-imp (Behind diff d i) (λ m. keys_equal j m.key ≡ false)
        (λ m b. keys_equal-nibble j m.key d p (λ z. e (z ∙ b.1))) t h)

  -- What a search finds in a tree in which the leaf for `k` has become `r`.
  abbrev pub Changed : Key → Option (Leaf V) → Key → Option (Leaf V) → Option (Leaf V) → Type 0
  Changed k r j new old = new ≡ (if keys_equal j k then r else old)
