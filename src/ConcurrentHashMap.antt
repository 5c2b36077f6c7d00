-- ===== src/ConcurrentHashMap.antt =====
-- include/libpmemobj++/container/concurrent_hash_map.hpp: the buckets of the map and their lazy
-- rehashing, while one thread uses it.
pub mod Home
pub mod Nodes
pub mod Buckets
pub mod Acquire
pub mod Growth
pub mod Changes
pub mod History
mod Tests
use libpmemobj_cpp.Common.{
  ℕ, zero, suc, ◌+◌, ◌-◌, ◌*◌, ◌^◌, ◌==◌, ltb, leb, bit_and, if◌then◌else◌, Bool, true, false,
  Option, none, some, List, [], ◌∷◌,
}
use libpmemobj_cpp.Common.Words.{add64, sub64}
use libpmemobj_cpp.Math.{log2}

-- `hash_map_base` with the buckets by their index: `rehashed` and `node_list` are the fields of
-- `bucket`, and a bucket that is not allocated yet is as its constructor makes it.
pub record HashMap (K V : Type 0) : Type 0 where
  pub my_mask : ℕ
  pub my_size : ℕ
  pub rehashed : ℕ → Bool
  pub node_list : ℕ → List (K × V)

-- A store into bucket `i`
abbrev pub set_at {ℓ} : {A : Type ℓ} → ℕ → A → (ℕ → A) → ℕ → A
set_at i x f j = if j == i then x else f j

-- The constructor: the two embedded buckets are rehashed.
abbrev pub initial : {K V : Type 0} → HashMap K V
initial = record { my_mask = 1; my_size = 0; rehashed = λ b. ltb b 2; node_list = λ _. [] }

-- `set_rehashed`
abbrev pub set_rehashed : {K V : Type 0} → ℕ → HashMap K V → HashMap K V
set_rehashed b s = record s { rehashed = set_at b true s.rehashed }

abbrev pub is_null : {A : Type 0} → List A → Bool
is_null [] = true
is_null (_ ∷ _) = false

-- `enable_segment(k)` of a map that is not empty: what is left of its effect is the mask. The first
-- block has the segments 1 to 7.
abbrev pub enable_segment : {K V : Type 0} → ℕ → HashMap K V → HashMap K V
enable_segment k s = record s { my_mask = (if leb 8 k then 2 ^ k * 2 else 2 ^ 8) - 1 }

-- `check_growth(m, sz)`, where no other thread has changed the mask
unfoldable pub check_growth : {K V : Type 0} → ℕ → ℕ → HashMap K V → HashMap K V
check_growth m sz s = if leb m sz then enable_segment (log2 (m + 1)) s else s

-- `insert_new_node`
abbrev pub insert_new_node : {K V : Type 0} → ℕ → K × V → HashMap K V → HashMap K V
insert_new_node b n s = record s {
  node_list = set_at b (n ∷ s.node_list b) s.node_list;
  my_size = add64 s.my_size 1;
}

-- The hash function and the comparison of keys are arguments of the template.
module _ {K V : Type 0} (hasher : K → ℕ) (key_equal : K → K → Bool) where
  unfoldable pub search_bucket : K → List (K × V) → Option V
  search_bucket key [] = none
  search_bucket key (n ∷ next) = if key_equal key n.0 then some n.1 else search_bucket key next

  -- The loop of `rehash_bucket`: the nodes that it links into the new bucket, in their order, and
  -- those that stay.
  unfoldable pub moved : ℕ → ℕ → List (K × V) → List (K × V)
  moved mask h [] = []
  moved mask h (n ∷ next) =
      let rest = moved mask h next in if bit_and (hasher n.0) mask == h then n ∷ rest else rest

  unfoldable pub kept : ℕ → ℕ → List (K × V) → List (K × V)
  kept mask h [] = []
  kept mask h (n ∷ next) =
      let rest = kept mask h next in if bit_and (hasher n.0) mask == h then rest else n ∷ rest

  -- The transaction of `rehash_bucket` and the flag that it sets at last
  abbrev pub relink : ℕ → ℕ → ℕ → HashMap K V → HashMap K V
  relink mask h parent s =
      let nodes = s.node_list parent in
      set_rehashed h (record s {
        node_list = set_at h (moved mask h nodes) (set_at parent (kept mask h nodes) s.node_list);
      })

  -- `rehash_bucket(b_new, h)`, given how it acquires the parent bucket
  abbrev pub rehash_bucket : (ℕ → HashMap K V → HashMap K V) → ℕ → HashMap K V → HashMap K V
  rehash_bucket acquire_parent h s =
      let mask = 2 ^ log2 h - 1 in
      let parent = bit_and h mask in
      if is_null (s.node_list h)
      then relink (mask * 2 + 1) h parent (acquire_parent parent s)
      else set_rehashed h s

  -- `bucket_accessor::acquire(h)`, on fuel
  unfoldable pub acquire : ℕ → ℕ → HashMap K V → HashMap K V
  acquire zero h s = s
  acquire (suc fuel) h s =
      let rehashing = rehash_bucket (acquire fuel) h s in if s.rehashed h then s else rehashing

  -- `internal_find`: the value of the node, and the map, which a search may rehash
  unfoldable pub internal_find : K → HashMap K V → HashMap K V × Option V
  unfolding acquire search_bucket
  internal_find key s =
      let b = bit_and (hasher key) s.my_mask in
      let t = acquire 64 b s in (t, search_bucket key (t.node_list b))

  -- `internal_insert`. The size that it passes to `check_growth` is 0 where nothing was inserted.
  unfoldable pub internal_insert : K × V → HashMap K V → HashMap K V × Bool
  unfolding acquire search_bucket check_growth
  internal_insert n s =
      let b = bit_and (hasher n.0) s.my_mask in
      let t = acquire 64 b s in
      elim (search_bucket n.0 (t.node_list b)) [
        | some _ ↦ (check_growth s.my_mask 0 t, false)
        | none ↦ let u = insert_new_node b n t in (check_growth s.my_mask u.my_size u, true)
      ]

  -- `*p = del->next` at the first node with the key
  unfoldable pub unlink : K → List (K × V) → List (K × V)
  unlink key [] = []
  unlink key (n ∷ next) = let rest = unlink key next in if key_equal key n.0 then next else n ∷ rest

  -- `internal_erase`
  unfoldable pub internal_erase : K → HashMap K V → HashMap K V × Bool
  unfolding acquire search_bucket unlink
  internal_erase key s =
      let b = bit_and (hasher key) s.my_mask in
      let t = acquire 64 b s in
      elim (search_bucket key (t.node_list b)) [
        | none ↦ (t, false)
        | some _ ↦ (
          record t {
            node_list = set_at b (unlink key (t.node_list b)) t.node_list;
            my_size = sub64 t.my_size 1;
          },
          true,
        )
      ]
