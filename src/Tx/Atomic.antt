-- ===== src/Tx/Atomic.antt =====
-- A scope of the library is atomic: its changes are kept, or the memory is as it was.
use libpmemobj_cpp.Common.{
  ℕ, ◌≡◌, ◌≢◌, refl, ap, ◌∙◌, inl, inr, if◌then◌else◌, ◌⊎◌, Bool, true, false, List, [], ◌∷◌, arith,
}
use libpmemobj_cpp.Common.Effect.{ok, throws, transaction_error, Action, Result}
use libpmemobj_cpp.Tx.{
  Api, no_tx, work, oncommit, onabort, is_work, einval, ecanceled, add_lock, begin_scope, manual,
  leave, conclude, run,
}
use libpmemobj_cpp.Tx.Contract.{Documented, Taken, Refused, Taken-add_lock, Refused-add_lock}

module _ (api : Api) (doc : Documented api) where
  open api use {State, stage}
  open doc use {Memory, memory, saved, depth}

  -- The two states are in the same transaction, over the same memory.
  pub record Same (s t : State) : Type 0 where
    pub same_stage : stage t ≡ stage s
    pub same_depth : depth t ≡ depth s
    pub same_memory : memory t ≡ memory s
    pub same_saved : saved t ≡ saved s

  pub add_lock-Same : (locks : List ℕ) (s : State) → Same s (add_lock api locks s).1
  unfolding add_lock
  add_lock-Same [] s = record {
    same_stage = refl;
    same_depth = refl;
    same_memory = refl;
    same_saved = refl;
  }
  add_lock-Same (l ∷ locks) s =
      ground (arith, doc.lock_keeps l s, add_lock-Same locks (api.lock l s).1)

  module _ (is_flat : Bool) (locks : List ℕ) (s : State) (free : stage s ≡ no_tx)
      (begun : (api.begin_tx true s).0 ≡ 0) where
    -- The state after the begin and the locks.
    abbrev pub entry : State
    entry = (add_lock api locks (api.begin_tx true s).1).1

    entry_facts :
        (stage entry ≡ work)
        × (depth entry ≡ 1)
        × (memory entry ≡ memory s)
        × (saved entry ≡ memory s)
    entry_facts =
        ground
          (arith, doc.begin_outer true s free begun, add_lock-Same locks (api.begin_tx true s).1)

    -- The state in which the user's function starts.
    abbrev pub start : State
    start = if is_flat then api.failure_return entry else entry

    start_facts :
        (stage start ≡ work)
        × (depth start ≡ 1)
        × (memory start ≡ memory s)
        × (saved start ≡ memory s)
    start_facts = ground (arith, entry_facts, doc.failure_return_keeps entry)

    manual_outer :
        (add_lock api locks (api.begin_tx true s).1).0 ≡ 0
        → manual api is_flat locks s ≡ (ok false, start)
    unfolding manual
    manual_outer locked = rw (free, begin_scope) (ground arith)

    -- If the constructor of an outermost `manual` has begun the transaction, and one of its locks, the
    -- first, the last or another, cannot be taken when those before it have been: it throws
    -- transaction_error, the transaction is ended, and the memory is unchanged.
    pub manual_lock_failure :
        Refused api locks (api.begin_tx true s).1
        → let (r, t) = manual api is_flat locks s in
          (r ≡ throws transaction_error) × (stage t ≡ no_tx) × (memory t ≡ memory s)
    unfolding manual
    manual_lock_failure refused =
        rw (free, begin_scope)
          (ground (
            arith,
            Refused-add_lock api locks (api.begin_tx true s).1 refused,
            entry_facts,
            doc.abort_restores einval entry,
            doc.end_outer (api.abort_tx einval entry),
          ))

    -- What the user's function may do: it leaves the transaction open, committed or aborted.
    pub record StaysInside (u : State) : Type 0 where
      pub inside : depth u ≡ 1
      pub same_saved : saved u ≡ memory s
      pub open_or_ended :
          (stage u ≡ work) ⊎ (stage u ≡ oncommit) ⊎ ((stage u ≡ onabort) × (memory u ≡ memory s))

    -- What an outermost scope does once the user's function has left it.
    abbrev closing : Result (Unit {0}) → State → Result (Unit {0}) × State
    closing (ok a) u =
        ((conclude api (stage u) u).0, leave api is_flat false (conclude api (stage u) u).1)
    closing (throws e) u = (throws e, leave api is_flat false u)

    -- The transaction has ended. Either the function returned or had committed itself, and the
    -- memory is the function's; or it threw or had aborted, and the memory is as it was.
    abbrev pub Closed : Result (Unit {0}) → State → Result (Unit {0}) × State → Type 0
    Closed r u out =
        (stage out.1 ≡ no_tx)
        × (((stage u ≢ onabort)
              × ((r ≡ ok tt) ⊎ (stage u ≡ oncommit))
              × (out.0 ≡ r)
              × (memory out.1 ≡ memory u))
            ⊎ (((stage u ≡ onabort) ⊎ ((r ≢ ok tt) × (stage u ≡ work)))
                × (out.0 ≢ ok tt)
                × (r ≢ ok tt → out.0 ≡ r)
                × (memory out.1 ≡ memory s)))

    leave_aborts :
        (u : State)
        → depth u ≡ 1
        → saved u ≡ memory s
        → (stage u ≡ work) ⊎ ((stage u ≡ onabort) × (memory u ≡ memory s))
        → (stage (leave api is_flat false u) ≡ no_tx)
          × (memory (leave api is_flat false u) ≡ memory s)
    unfolding leave is_work
    leave_aborts u d e v = ground (
      arith,
      doc.abort_restores ecanceled u,
      doc.end_outer u,
      doc.end_outer (api.abort_tx ecanceled u),
    )

    leave_committed :
        (u : State)
        → stage u ≡ oncommit
        → depth u ≡ 1
        → (stage (leave api is_flat false u) ≡ no_tx)
          × (memory (leave api is_flat false u) ≡ memory u)
    unfolding leave is_work
    leave_committed u w d = ground (arith, doc.end_outer u)

    closing-Closed : (r : Result (Unit {0})) (u : State) → StaysInside u → Closed r u (closing r u)
    unfolding conclude
    closing-Closed (ok a) u v = elim v.open_or_ended [
      | inl w ↦
          let c = doc.commit_keeps u w in
          let done = leave_committed (api.commit_tx u) c.0 (c.1 ∙ v.inside) in
          rw w (done.0, inl ((λ e. cc), (inl refl), refl, done.1 ∙ c.2))
      | inr (inl w) ↦
          let done = leave_committed u w v.inside in
          rw w (done.0, inl ((λ e. cc), (inl refl), refl, done.1))
      | inr (inr (w, m)) ↦
          let done = leave_aborts u v.inside v.same_saved (inr (w, m)) in
          rw w (done.0, inr (inl refl, (λ e. cc), (λ n. absurd (n refl)), done.1))
    ]
    closing-Closed (throws e) u v = elim v.open_or_ended [
      | inl w ↦
          let done = leave_aborts u v.inside v.same_saved (inl w) in
          (done.0, inr (inr ((λ q. cc), w), (λ q. cc), (λ n. refl), done.1))
      | inr (inl w) ↦
          let done = leave_committed u w v.inside in (done.0, inl ((λ q. cc), inr w, refl, done.1))
      | inr (inr (w, m)) ↦
          let done = leave_aborts u v.inside v.same_saved (inr (w, m)) in
          (done.0, inr (inl w, (λ q. cc), (λ n. refl), done.1))
    ]

    module _ (after : State) (tx : Action State (Unit {0})) {u : State} {r : Result (Unit {0})}
        (taken : Taken api locks (api.begin_tx true s).1 after)
        (does : tx (if is_flat then api.failure_return after else after) ≡ (r, u))
        (inside : StaysInside u) where
      run-eq-closing : run api is_flat locks tx s ≡ closing r u
      unfolding run
      run-eq-closing =
          let locked = Taken-add_lock api locks (api.begin_tx true s).1 after taken in
          ground (arith, manual_outer (ap (λ o. o.0) locked), ap (λ o. o.1) locked, does)

      -- An outermost transaction::run whose begin succeeds and which takes all its locks, and whose
      -- function leaves the transaction open, committed or aborted, but at its depth, with what was
      -- saved of the memory and, if aborted, with the memory restored: run ends the transaction. If
      -- the function returned without an abort, or had committed, run passes its result or exception
      -- on, and the memory is the function's. Otherwise run throws, what the function threw if it
      -- did, and the memory is as before.
      pub run_atomic : Closed r u (run api is_flat locks tx s)
      run_atomic = rw run-eq-closing (closing-Closed r u inside)
