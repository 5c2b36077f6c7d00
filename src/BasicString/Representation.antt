-- ===== src/BasicString/Representation.antt =====
-- The private functions of `basic_string`, which run inside a transaction. The snapshots of the
-- word `_size` are not recorded.
use libpmemobj_cpp.Common.{
  ℕ, ◌+◌, ◌-◌, min, ltb, leb, not, ◌&&◌, if◌then◌else◌, true, false, Option, none, some, List, [],
  map,
}
use libpmemobj_cpp.Common.Effect.{Action, ok, throws, pass, ◌>>◌, modify}
use libpmemobj_cpp.Tx.{work}
use libpmemobj_cpp.Snapshot.{Range, conditional_add_to_tx}
use libpmemobj_cpp.Vector.{Block, Vector, Env}
use libpmemobj_cpp.Vector.Cells.{write, create_all, read_all}
use libpmemobj_cpp.Vector.Insert.{outside, insert_range, insert_fill, emplace_back}
use libpmemobj_cpp.Vector.Modify.{reserve, assign_range, assign_fill, free_data}
use libpmemobj_cpp.BasicString.{
  BasicString, Source, range, fill, values, get_size, size, capacity, sso_capacity, on_large, cdata,
}

-- `enable_sso`. In a string that was large the word `_size` stays, and the bytes of the array are
-- those of the vector, which nothing reads before they are written.
unfoldable pub enable_sso : BasicString → BasicString
enable_sso s =
    if s.sso then s else record s { sso = true; sso_size = s.non_sso.size; sso_data = λ _. none }

unfoldable pub disable_sso : BasicString → BasicString
disable_sso s = record s { sso = false }

unfoldable pub set_sso_size : ℕ → BasicString → BasicString
set_sso_size new_size s = record s { sso = true; sso_size = new_size }

-- `vector()`
abbrev pub empty_vector : Vector ℕ
empty_vector = record { has_data = false; block = λ _. none; size = 0; capacity = 0; added = [] }

-- Slots of the array, written by `traits_type::move` as if through a copy
abbrev pub traits_move : ℕ → ℕ → ℕ → Block ℕ → Block ℕ
traits_move dest first n c j =
    if leb dest j && ltb j (dest + n) then c (first + (j - dest)) else c j

-- `std::copy` or `traits_type::assign` to the slots of the array from `dest` on
abbrev pub put : ℕ → List (Option ℕ) → BasicString → BasicString
put dest sources s = record s { sso_data = create_all dest sources s.sso_data }

-- `sso_data()._data[idx] = value_type('\0')`
abbrev pub terminate : ℕ → BasicString → BasicString
terminate idx s = record s { sso_data = write idx (some 0) s.sso_data }

module _ (env : Env ℕ) where
  unfoldable pub add_range : Range → Action BasicString (Unit {0})
  add_range place s = elim (conditional_add_to_tx work true env.xadd place s.added) [
    | ok ranges ↦ (ok tt, record s { added = ranges })
    | throws e ↦ (throws e, s)
  ]

  -- `operator[]` of the array, which adds the element to the transaction
  abbrev pub add_element : ℕ → Action BasicString (Unit {0})
  add_element idx = add_range (record { first = idx; count = 1; snapshot = true })

  -- `add_sso_to_tx`, whose callers pass an `idx_first` of at most the size
  unfoldable pub add_sso_to_tx : ℕ → ℕ → Action BasicString (Unit {0})
  unfolding add_range
  add_sso_to_tx idx_first num s =
      let initialized_num = s.sso_size + 1 - idx_first in
      let rest =
        add_range
          (record { first = s.sso_size + 1; count = num - initialized_num; snapshot = false }) in
      (do
        add_range (record { first = idx_first; count = min initialized_num num; snapshot = true })
        if ltb initialized_num num then rest else pass tt)
        s

  unfoldable pub destroy_data : Action BasicString (Unit {0})
  unfolding add_sso_to_tx
  destroy_data s = if s.sso then add_sso_to_tx 0 (s.sso_size + 1) s else on_large (free_data env) s

  -- `detail::create<non_sso_type>(&non_sso_data()); non_sso_data().reserve(n + 1);`, with the
  -- memory of the vector added to the transaction
  unfoldable pub create_large : ℕ → Action BasicString (Unit {0})
  unfolding add_range
  create_large n = do
    add_range (record { first = 0; count = 1; snapshot = false })
    modify (λ s. record s { non_sso = empty_vector })
    on_large (reserve env (n + 1))

  unfoldable pub allocate : ℕ → Action BasicString (Unit {0})
  unfolding enable_sso disable_sso
  allocate n s =
      let t = if leb n sso_capacity then enable_sso s else disable_sso s in
      if not t.sso then create_large n t else (ok tt, t)

  unfoldable pub assign_sso_data : Source → Action BasicString (Unit {0})
  unfolding add_sso_to_tx add_range get_size set_sso_size
  assign_sso_data source =
      let n = get_size source in
      do
        add_sso_to_tx 0 (n + 1)
        modify (put 0 (map some (values source)))
        modify (terminate n)
        modify (set_sso_size n)
        add_element 0

  -- `non_sso_data().assign(...)` and `non_sso_data().insert(begin() + idx, ...)`
  abbrev pub vector_assign : Source → Action (Vector ℕ) (Unit {0})
  vector_assign (range xs) = assign_range env xs
  vector_assign (fill count ch) = assign_fill env count (outside ch)

  abbrev pub vector_insert : ℕ → Source → Action (Vector ℕ) (Unit {0})
  vector_insert idx (range xs) = insert_range env idx xs
  vector_insert idx (fill count ch) = insert_fill env idx count (outside ch)

  unfoldable pub assign_large_data : Source → Action BasicString (Unit {0})
  unfolding get_size
  assign_large_data source =
      on_large
        (do reserve env (get_size source + 1); vector_assign source; emplace_back env (outside 0))

  unfoldable pub initialize : Source → Action BasicString (Unit {0})
  unfolding assign_sso_data assign_large_data
  initialize source s = if s.sso then assign_sso_data source s else assign_large_data source s

  unfoldable pub replace_content : Source → Action BasicString (Unit {0})
  unfolding assign_large_data destroy_data allocate initialize capacity get_size
  replace_content source s =
      let new_size = get_size source in
      if not s.sso && leb new_size (capacity s)
      then assign_large_data source s
      else (do destroy_data; allocate new_size; initialize source) s

  -- The characters that a temporary copy of the first `n` slots holds; a slot that was never
  -- written reads as 0.
  abbrev pub copied : ℕ → Block ℕ → List ℕ
  copied n c = map (λ o. elim o [ some ch ↦ ch | none ↦ 0 ]) (read_all 0 n c)

  -- `sso_to_large` and `large_to_sso` are one body: the characters are kept in a temporary while
  -- the string is built anew.
  abbrev pub rebuild : ℕ → Action BasicString (Unit {0})
  rebuild new_capacity s =
      let tmp = range (copied (size s) (cdata s)) in
      (do destroy_data; allocate new_capacity; initialize tmp) s

  unfoldable pub sso_to_large : ℕ → Action BasicString (Unit {0})
  unfolding size cdata destroy_data allocate initialize
  sso_to_large new_capacity = rebuild new_capacity

  unfoldable pub large_to_sso : Action BasicString (Unit {0})
  unfolding size cdata destroy_data allocate initialize
  large_to_sso s = rebuild (size s) s
