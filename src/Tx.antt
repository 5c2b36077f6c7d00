-- ===== src/Tx.antt =====
-- include/libpmemobj++/transaction.hpp: the scopes that begin, commit and abort a transaction of
-- libpmemobj. The functions of libpmemobj are the fields of `Api`, which is a parameter.
pub mod Callback
pub mod Contract
pub mod Atomic
pub mod Nested
mod Tests
use libpmemobj_cpp.Common.{
  ℕ, Bool, true, false, ◌&&◌, ◌||◌, not, List, [], ◌∷◌, ◌==◌, if◌then◌else◌,
}
use libpmemobj_cpp.Common.Effect.{
  Exn, transaction_error, transaction_scope_error, manual_tx_abort, ok, throws, Action, pass, throw,
  ◌>>=◌, ◌>>◌, modify, read, finally_do,
}

-- `enum pobj_tx_stage`, which `transaction_base::stage` names without TX_STAGE_NONE.
pub data Stage : Type 0 where
  no_tx work oncommit onabort finally : Stage

unfoldable pub is_work : Stage → Bool
is_work work = true
is_work _ = false

-- What transaction.hpp calls of libpmemobj, over libpmemobj's own state.
pub record Api : Type 1 where
  pub State : Type 0
  pub stage : State → Stage
  pub errno : State → ℕ
  -- `pmemobj_tx_begin`; the flag says whether `c_callback` is passed
  pub begin_tx : Bool → State → ℕ × State
  pub lock : ℕ → State → ℕ × State
  pub commit_tx : State → State
  pub abort_tx : ℕ → State → State
  pub end_tx : State → State
  -- `pmemobj_tx_set_failure_behavior(POBJ_TX_FAILURE_RETURN)`
  pub failure_return : State → State

-- EINVAL and ECANCELED of <errno.h>
abbrev pub einval : ℕ
einval = 22

abbrev pub ecanceled : ℕ
ecanceled = 125

module _ (api : Api) where
  open api use {State, stage, errno, begin_tx, lock, commit_tx, abort_tx, end_tx, failure_return}

  -- `add_lock`: the first lock that fails ends the walk.
  pub add_lock : List ℕ → State → ℕ × State
  add_lock [] s = (0, s)
  add_lock (l ∷ locks) s =
      let (err, t) = lock l s in let rest = add_lock locks t in if err == 0 then rest else (err, t)

  -- How the constructor of `manual` begins: the value of `nested`, and what `pmemobj_tx_begin`
  -- returned.
  pub begin_scope : Stage → Action State (Bool × ℕ)
  begin_scope work s = let (ret, t) = begin_tx false s in (ok (true, ret), t)
  begin_scope no_tx s = let (ret, t) = begin_tx true s in (ok (false, ret), t)
  begin_scope _ s = (throws transaction_scope_error, s)

  -- The rest of the constructor.
  pub lock_scope : Bool → List ℕ → Bool → Action State Bool
  lock_scope is_flat locks nested s =
      let (err, t) = add_lock locks s in
      if err == 0
      then (ok nested, if is_flat then failure_return t else t)
      else (throws transaction_error, end_tx (abort_tx einval t))

  -- `manual::manual`; the result is the member `nested`. LIBPMEMOBJ_CPP_FLAT_TX_USE_FAILURE_RETURN
  -- has its default, true.
  pub manual : Bool → List ℕ → Action State Bool
  unfolding begin_scope lock_scope
  manual is_flat locks = do
    stg ← read stage
    begun ← begin_scope stg
    if begun.1 == 0 then lock_scope is_flat locks begun.0 else throw transaction_error

  -- `manual::~manual`
  pub leave : Bool → Bool → State → State
  leave is_flat nested s = end_tx (
      if is_work (stage s)
      then (if is_flat && nested then commit_tx s else abort_tx ecanceled s)
      else s)

  -- What `run` does once the user's function has returned.
  pub conclude : Stage → Action State (Unit {0})
  conclude work s = (ok tt, commit_tx s)
  conclude onabort s = (throws transaction_error, s)
  conclude no_tx s = (throws transaction_error, s)
  conclude _ s = (ok tt, s)

  -- `transaction_base::run`: the destructor of `worker` runs on every way out.
  pub run : Bool → List ℕ → Action State (Unit {0}) → Action State (Unit {0})
  run is_flat locks tx = do
    nested ← manual is_flat locks
    finally_do (do tx; stg ← read stage; conclude stg) (leave is_flat nested)

  -- `automatic::~automatic` at the normal end of its scope. (If an exception leaves the scope it
  -- does nothing, and the member `tx_worker` is destroyed in both cases.)
  pub end_automatic : Stage → Action State (Unit {0})
  end_automatic work s = (ok tt, commit_tx s)
  end_automatic onabort s = (throws transaction_error, s)
  end_automatic finally s = if errno s == 0 then (ok tt, s) else (throws transaction_error, s)
  end_automatic _ s = (ok tt, s)

  -- A block that declares an `automatic` and then does `body`.
  pub automatic : Bool → List ℕ → Action State (Unit {0}) → Action State (Unit {0})
  automatic is_flat locks body = do
    nested ← manual is_flat locks
    finally_do (do body; stg ← read stage; end_automatic stg) (leave is_flat nested)

  -- `transaction_base::abort`
  pub abort : ℕ → Action State (Unit {0})
  abort err s =
      if is_work (stage s)
      then (throws (manual_tx_abort err), abort_tx err s)
      else (throws transaction_error, s)

  -- `transaction_base::commit`
  pub commit : Action State (Unit {0})
  commit s = if is_work (stage s) then (ok tt, commit_tx s) else (throws transaction_error, s)
