-- ===== src/Tx/Contract.antt =====
-- What libpmemobj documents of the functions in `Api`, over a memory that it rolls back.
use libpmemobj_cpp.Common.{ℕ, suc, ◌≡◌, ◌≢◌, ◌⊎◌, inl, inr, sym, Bool, List, [], ◌∷◌, arith}
use libpmemobj_cpp.Tx.{Api, no_tx, work, oncommit, onabort, add_lock}

-- `memory` is the persistent memory, `depth` counts the open transactions, and `saved` is the
-- memory at the begin of the outermost one.
pub record Documented (api : Api) : Type 1 where
  pub Memory : Type 0
  pub memory : api.State → Memory
  pub saved : api.State → Memory
  pub depth : api.State → ℕ
  -- A begin that succeeds opens a transaction; the outermost one saves the memory.
  pub begin_outer :
      (cb : Bool) (s : api.State)
      → api.stage s ≡ no_tx
      → (api.begin_tx cb s).0 ≡ 0
      → (api.stage (api.begin_tx cb s).1 ≡ work)
        × (depth (api.begin_tx cb s).1 ≡ 1)
        × (memory (api.begin_tx cb s).1 ≡ memory s)
        × (saved (api.begin_tx cb s).1 ≡ memory s)
  pub begin_nested :
      (cb : Bool) (s : api.State)
      → api.stage s ≡ work
      → (api.begin_tx cb s).0 ≡ 0
      → (api.stage (api.begin_tx cb s).1 ≡ work)
        × (depth (api.begin_tx cb s).1 ≡ suc (depth s))
        × (memory (api.begin_tx cb s).1 ≡ memory s)
        × (saved (api.begin_tx cb s).1 ≡ saved s)
  -- A lock, and the choice of the failure behaviour, touch neither the memory nor the stage.
  pub lock_keeps :
      (l : ℕ) (s : api.State)
      → (api.stage (api.lock l s).1 ≡ api.stage s)
        × (depth (api.lock l s).1 ≡ depth s)
        × (memory (api.lock l s).1 ≡ memory s)
        × (saved (api.lock l s).1 ≡ saved s)
  pub failure_return_keeps :
      (s : api.State)
      → (api.stage (api.failure_return s) ≡ api.stage s)
        × (depth (api.failure_return s) ≡ depth s)
        × (memory (api.failure_return s) ≡ memory s)
        × (saved (api.failure_return s) ≡ saved s)
  -- A commit keeps the memory, an abort of the outermost transaction restores it.
  pub commit_keeps :
      (s : api.State)
      → api.stage s ≡ work
      → (api.stage (api.commit_tx s) ≡ oncommit)
        × (depth (api.commit_tx s) ≡ depth s)
        × (memory (api.commit_tx s) ≡ memory s)
        × (saved (api.commit_tx s) ≡ saved s)
  pub abort_restores :
      (err : ℕ) (s : api.State)
      → api.stage s ≡ work
      → depth s ≡ 1
      → (api.stage (api.abort_tx err s) ≡ onabort)
        × (depth (api.abort_tx err s) ≡ 1)
        × (memory (api.abort_tx err s) ≡ saved s)
        × (saved (api.abort_tx err s) ≡ saved s)
  -- The end of the outermost transaction, and of a nested one that has committed.
  pub end_outer :
      (s : api.State)
      → depth s ≡ 1
      → (api.stage (api.end_tx s) ≡ no_tx)
        × (depth (api.end_tx s) ≡ 0)
        × (memory (api.end_tx s) ≡ memory s)
  pub end_committed :
      (d : ℕ) (s : api.State)
      → depth s ≡ suc (suc d)
      → api.stage s ≡ oncommit
      → (api.stage (api.end_tx s) ≡ work)
        × (depth (api.end_tx s) ≡ suc d)
        × (memory (api.end_tx s) ≡ memory s)
        × (saved (api.end_tx s) ≡ saved s)
  -- The end of a nested transaction that has aborted aborts the one around it; the memory is
  -- restored when that is the outermost.
  pub end_aborted :
      (d : ℕ) (s : api.State)
      → depth s ≡ suc (suc d)
      → api.stage s ≡ onabort
      → (api.stage (api.end_tx s) ≡ onabort)
        × (depth (api.end_tx s) ≡ suc d)
        × (saved (api.end_tx s) ≡ saved s)
        × (d ≡ 0 → memory (api.end_tx s) ≡ saved s)

module _ (api : Api) where
  -- Every lock of the list is taken, in its order, which leads from one state to the other.
  abbrev pub Taken : List ℕ → api.State → api.State → Type 0
  Taken [] s t = t ≡ s
  Taken (l ∷ locks) s t = ((api.lock l s).0 ≡ 0) × Taken locks (api.lock l s).1 t

  -- One of the locks cannot be taken when those before it have been.
  abbrev pub Refused : List ℕ → api.State → Type 0
  Refused [] s = ⊥
  Refused (l ∷ locks) s =
      ((api.lock l s).0 ≢ 0) ⊎ (((api.lock l s).0 ≡ 0) × Refused locks (api.lock l s).1)

  pub Taken-add_lock :
      (locks : List ℕ) (s t : api.State) → Taken locks s t → add_lock api locks s ≡ (0, t)
  unfolding add_lock
  Taken-add_lock [] s t e = λ i. (0, sym e i)
  Taken-add_lock (l ∷ locks) s t (e, rest) =
      ground (arith, e, Taken-add_lock locks (api.lock l s).1 t rest)

  pub Refused-add_lock :
      (locks : List ℕ) (s : api.State) → Refused locks s → (add_lock api locks s).0 ≢ 0
  unfolding add_lock
  Refused-add_lock [] s h = absurd h
  Refused-add_lock (l ∷ locks) s (inl e) = ground (arith, e)
  Refused-add_lock (l ∷ locks) s (inr (e, rest)) =
      ground (arith, e, Refused-add_lock locks (api.lock l s).1 rest)
