-- ===== src/Snapshot.antt =====
-- `conditional_add_to_tx` of include/libpmemobj++/detail/common.hpp: a range of memory is added to
-- the running transaction before it is changed.
use libpmemobj_cpp.Common.{ℕ, Bool, ◌==◌, if◌then◌else◌, Option, none, some, List, ◌∷◌}
use libpmemobj_cpp.Common.Effect.{
  Exn, transaction_error, transaction_out_of_memory, Result, ok, throws,
}
use libpmemobj_cpp.Tx.{Stage, is_work}

-- ENOMEM of <errno.h>
abbrev pub enomem : ℕ
enomem = 12

-- What a failed call of libpmemobj is turned into.
unfoldable pub error_of : Exn → ℕ → Exn
error_of other errno = if errno == enomem then transaction_out_of_memory else other

-- `count` objects from `first` on, with the flag POBJ_XADD_NO_SNAPSHOT or without it.
pub record Range : Type 0 where
  pub first : ℕ
  pub count : ℕ
  pub snapshot : Bool

-- The arguments are the stage, whether the address is in an open pool, and the errno of
-- `pmemobj_tx_xadd_range_direct` if it fails. The list holds the ranges that are added.
unfoldable pub conditional_add_to_tx :
    Stage → Bool → (Range → Option ℕ) → Range → List Range → Result (List Range)
unfolding error_of is_work
conditional_add_to_tx stage in_pool xadd range added =
    if range.count == 0
    then ok added
    else if is_work stage
    then if in_pool
      then elim (xadd range) [
        | none ↦ ok (range ∷ added)
        | some errno ↦ throws (error_of transaction_error errno)
      ]
      else ok added
    else ok added
