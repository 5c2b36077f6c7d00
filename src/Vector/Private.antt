-- ===== src/Vector/Private.antt =====
-- The private functions of `vector`, which run inside a transaction.
use libpmemobj_cpp.Common.{
  ℕ, ◌+◌, ◌-◌, min, ◌==◌, ltb, if◌then◌else◌, true, false, Option, none, some, List, length,
}
use mathlib.Core.Option
use libpmemobj_cpp.Common.Effect.{
  transaction_alloc_error, transaction_free_error, length_error, ok, throws, Action, pass, ◌>>◌,
  ◌>>=◌, modify,
}
use libpmemobj_cpp.Math.{next_pow_2}
use libpmemobj_cpp.Tx.{work}
use libpmemobj_cpp.Snapshot.{Range, conditional_add_to_tx, error_of}
use libpmemobj_cpp.Vector.{Block, Vector, Env}
use libpmemobj_cpp.Vector.Cells.{create_all, destroy_all, read_all}

-- `get_recommended_capacity`
unfoldable pub get_recommended_capacity : ℕ → ℕ
get_recommended_capacity at_least = next_pow_2 at_least

module _ {A : Type 0} (env : Env A) where
  -- A call of `conditional_add_to_tx`: the vector is in a pool and the stage is WORK.
  unfoldable pub add_range : Range → Action (Vector A) (Unit {0})
  add_range range v = elim (conditional_add_to_tx work true env.xadd range v.added) [
    | ok ranges ↦ (ok tt, record v { added = ranges })
    | throws e ↦ (throws e, v)
  ]

  -- `add_data_to_tx`, whose callers pass an `idx_first` of at most `size()`.
  unfoldable pub add_data_to_tx : ℕ → ℕ → Action (Vector A) (Unit {0})
  unfolding add_range
  add_data_to_tx idx_first num v =
      let initialized = v.size - idx_first in
      let rest =
        add_range (record { first = v.size; count = num - initialized; snapshot = false }) in
      (do
        add_range (record { first = idx_first; count = min initialized num; snapshot = true })
        if ltb initialized num then rest else pass tt)
        v

  -- `alloc`
  unfoldable pub alloc : ℕ → Action (Vector A) (Unit {0})
  unfolding error_of
  alloc capacity_new v =
      if ltb env.max_size capacity_new
      then (throws length_error, v)
      else if capacity_new == 0
      then (ok tt, record v { capacity = capacity_new })
      else elim (env.tx_alloc capacity_new) [
        | none ↦ (ok tt, record v { capacity = capacity_new; has_data = true; block = λ _. none })
        | some errno ↦
            (throws (error_of transaction_alloc_error errno), record v { capacity = capacity_new })
      ]

  -- Both overloads of `construct_at_end`: the sources are copies of one value, or a range.
  unfoldable pub construct_at_end : List (Option A) → Action (Vector A) (Unit {0})
  construct_at_end sources =
      modify (λ v. record v {
        block = create_all v.size sources v.block;
        size = v.size + length sources;
      })

  -- `shrink`, called with a size of at most `_size`
  unfoldable pub shrink : ℕ → Action (Vector A) (Unit {0})
  unfolding add_data_to_tx
  shrink size_new v =
      let adds = add_data_to_tx size_new (v.size - size_new) in
      (do
        if env.trivially_destructible then pass tt else adds
        modify (λ v. record v {
          block = destroy_all size_new (v.size - size_new) v.block;
          size = size_new;
        }))
        v

  -- `pmemobj_tx_free`, and what is thrown if it fails
  abbrev pub free : Action (Vector A) (Unit {0})
  free v = elim env.tx_free [ none ↦ (ok tt, v) | some errno ↦ (throws transaction_free_error, v) ]

  abbrev pub forget_data : Vector A → Vector A
  forget_data v = record v { has_data = false; block = λ _. none; capacity = 0 }

  -- `dealloc`
  unfoldable pub dealloc : Action (Vector A) (Unit {0})
  unfolding shrink
  dealloc v = if v.has_data then (do shrink 0; free; modify forget_data) v else (ok tt, v)

  -- `_data = nullptr; _size = _capacity = 0;`
  abbrev pub detach : Action (Vector A) (Unit {0})
  detach = modify (λ v. record v { has_data = false; block = λ _. none; size = 0; capacity = 0 })

  -- How many elements `realloc` moves: those from `old_begin` to `old_end`
  abbrev pub moved_count : ℕ → Vector A → ℕ
  moved_count capacity_new v = if ltb capacity_new v.size then capacity_new else v.size

  -- What `realloc` leaves in the old block: elements that were moved from, and then destroyed, which
  -- does nothing to an element of a trivially destructible type. The memory stays until the
  -- transaction commits.
  abbrev pub left_behind : ℕ → Vector A → Block A
  left_behind capacity_new v j =
      let moved =
        if ltb j (moved_count capacity_new v)
        then Option.map env.moved_from (v.block j)
        else v.block j in
      let destroyed = if env.trivially_destructible then moved else none in
      if ltb j v.size then destroyed else v.block j

  -- `realloc`, with the old block as its result, for the callers that have a reference into it
  unfoldable pub realloc_from : ℕ → Action (Vector A) (Block A)
  unfolding alloc add_data_to_tx construct_at_end
  realloc_from capacity_new v =
      let moved = read_all 0 (moved_count capacity_new v) v.block in
      let old = left_behind capacity_new v in
      if v.has_data
      then (do
        add_data_to_tx 0 v.size
        detach
        alloc capacity_new
        construct_at_end moved
        free
        pass old)
          v
      else (do alloc capacity_new; pass old) v

  -- `realloc`
  unfoldable pub realloc : ℕ → Action (Vector A) (Unit {0})
  unfolding realloc_from
  realloc capacity_new = do _ ← realloc_from capacity_new; pass tt
