-- ===== src/Vector/Insert.antt =====
-- `insert`, `emplace`, `emplace_back`, `push_back` and the functions that they share. A value that
-- the caller passes by reference may be an element of the vector itself.
use libpmemobj_cpp.Common.{
  ℕ, zero, suc, ◌+◌, ◌-◌, ◌==◌, ltb, leb, if◌then◌else◌, Option, some, List, [], ◌∷◌, map, length,
  replicate,
}
use mathlib.Core.Option
use libpmemobj_cpp.Common.Effect.{Action, ◌>>=◌, ◌>>◌, modify, read}
use libpmemobj_cpp.Vector.{Block, Vector, Env, transaction}
use libpmemobj_cpp.Vector.Cells.{write, create_all, read_all}
use libpmemobj_cpp.Vector.Private.{
  get_recommended_capacity, add_data_to_tx, alloc, construct_at_end, free, detach, realloc_from,
}

-- `const value_type &`: an object outside the vector, or its element at an index.
pub data Ref (A : Type 0) : Type 0 where
  outside : A → Ref A
  inside : ℕ → Ref A

abbrev pub deref : {A : Type 0} → Block A → Ref A → Option A
deref c (outside a) = some a
deref c (inside k) = c k

-- `*d = std::move(*s)`, or the construction of `*d` from it.
abbrev pub move_one : {A : Type 0} → (A → A) → ℕ → ℕ → Block A → Block A
move_one moved_from s d c = write s (Option.map moved_from (c s)) (write d (c s) c)

module _ {A : Type 0} (env : Env A) where
  -- `move_elements_backward` of `n` elements from `first` on, to slots from `dest` on, the last
  -- element first. (It constructs in the slots from `cend()` on and assigns below.)
  unfoldable pub move_elements_backward : ℕ → ℕ → ℕ → Block A → Block A
  move_elements_backward first dest zero c = c
  move_elements_backward first dest (suc n) c =
      move_elements_backward first dest n (move_one env.moved_from (first + n) (dest + n) c)

  -- `construct_or_assign`: assignment and construction leave the same value in a slot.
  unfoldable pub construct_or_assign : ℕ → List (Option A) → Action (Vector A) (Unit {0})
  construct_or_assign idx sources =
      modify
        (λ v. record v { block = create_all idx sources v.block; size = v.size + length sources })

  -- What moving the elements below `idx` out of a block leaves.
  abbrev pub moved_below : ℕ → Block A → Block A
  moved_below idx c j = if ltb j idx then Option.map env.moved_from (c j) else c j

  -- `internal_insert` of `count` elements. The sources are given as a function of the block, since
  -- they may be read from the vector's own slots, after those have moved.
  unfoldable pub internal_insert :
      ℕ → ℕ → (Block A → List (Option A)) → Action (Vector A) (Unit {0})
  unfolding move_elements_backward construct_or_assign
  internal_insert idx count sources v =
      let before = read_all 0 idx v.block in
      let inserted = sources (moved_below idx v.block) in
      let after = read_all idx (v.size - idx) v.block in
      if leb (v.size + count) v.capacity
      then (do
        add_data_to_tx env idx (v.size - idx + count)
        modify (λ v. record v {
          block = move_elements_backward idx (idx + count) (v.size - idx) v.block;
        })
        c ← read (λ v. sources v.block)
        construct_or_assign idx c)
          v
      else (do
        add_data_to_tx env 0 v.size
        detach env
        alloc env (get_recommended_capacity (v.size + count))
        construct_at_end env before
        construct_at_end env inserted
        construct_at_end env after
        free env)
          v

  -- `insert(pos, first, last)`
  unfoldable pub insert_range : ℕ → List A → Action (Vector A) (Unit {0})
  insert_range idx xs = transaction (internal_insert idx (length xs) (λ _. map some xs))

  -- `insert(pos, count, value)`, and `insert(pos, value)` with a count of 1.
  unfoldable pub insert_fill : ℕ → ℕ → Ref A → Action (Vector A) (Unit {0})
  insert_fill idx count value =
      transaction (internal_insert idx count (λ c. replicate count (deref c value)))

  -- `emplace`: the new element is built in a temporary before anything moves.
  unfoldable pub emplace : ℕ → Ref A → Action (Vector A) (Unit {0})
  emplace idx value v = transaction (internal_insert idx 1 (λ _. deref v.block value ∷ [])) v

  -- `emplace_back`, and `push_back`, which forwards to it. After a reallocation an argument that is
  -- an element of the vector is read from the old block.
  unfoldable pub emplace_back : Ref A → Action (Vector A) (Unit {0})
  emplace_back value v =
      transaction
        (if v.size == v.capacity
          then (do
            old ← realloc_from env (get_recommended_capacity (v.size + 1))
            construct_at_end env (deref old value ∷ []))
          else (do add_data_to_tx env v.size 1; construct_at_end env (deref v.block value ∷ [])))
        v
