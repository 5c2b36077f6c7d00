-- ===== src/Tx/Nested.antt =====
-- A flat scope inside another transaction does not roll back on its own, and `automatic` agrees
-- with `run`.
use libpmemobj_cpp.Common.{
  ℕ, suc, ◌≡◌, ◌≢◌, refl, ◌∙◌, ◌⊎◌, inl, inr, Bool, true, false, List, arith,
}
use libpmemobj_cpp.Common.Effect.{Result, ok, throws, Action}
use libpmemobj_cpp.Tx.{
  Api, no_tx, work, oncommit, onabort, finally, is_work, begin_scope, manual, leave, conclude, run,
  end_automatic, automatic,
}
use libpmemobj_cpp.Tx.Contract.{Documented, Taken, Taken-add_lock}

module _ (api : Api) (doc : Documented api) where
  open api use {State, stage}
  open doc use {memory, saved, depth}

  module _ (locks : List ℕ) (d : ℕ) (s : State) (outer : stage s ≡ work) (deep : depth s ≡ suc d)
      (begun : (api.begin_tx false s).0 ≡ 0) where
    -- What the user's function may do: it leaves its transaction open, committed or aborted.
    pub record StaysNested (u : State) : Type 0 where
      pub inside : depth u ≡ suc (suc d)
      pub same_saved : saved u ≡ saved s
      pub open_or_ended : (stage u ≡ work) ⊎ (stage u ≡ oncommit) ⊎ (stage u ≡ onabort)

    abbrev closing : Result (Unit {0}) → State → Result (Unit {0}) × State
    closing (ok a) u =
        ((conclude api (stage u) u).0, leave api true true (conclude api (stage u) u).1)
    closing (throws e) u = (throws e, leave api true true u)

    -- The outer transaction is left at its depth. Either it goes on with the memory of the function,
    -- or it is aborted too.
    abbrev pub Continued : Result (Unit {0}) → State → Result (Unit {0}) × State → Type 0
    Continued r u out =
        (depth out.1 ≡ suc d)
        × (saved out.1 ≡ saved s)
        × (((stage u ≢ onabort) × (out.0 ≡ r) × (stage out.1 ≡ work) × (memory out.1 ≡ memory u))
            ⊎ ((stage u ≡ onabort)
                × (out.0 ≢ ok tt)
                × (r ≢ ok tt → out.0 ≡ r)
                × (stage out.1 ≡ onabort)
                × (d ≡ 0 → memory out.1 ≡ saved s)))

    leave_continues :
        (u : State)
        → (stage u ≡ work) ⊎ (stage u ≡ oncommit)
        → depth u ≡ suc (suc d)
        → saved u ≡ saved s
        → (stage (leave api true true u) ≡ work)
          × (depth (leave api true true u) ≡ suc d)
          × (memory (leave api true true u) ≡ memory u)
          × (saved (leave api true true u) ≡ saved s)
    unfolding leave is_work
    leave_continues u w k e =
        ground
          (arith, doc.commit_keeps u, doc.end_committed d u, doc.end_committed d (api.commit_tx u))

    leave_aborted :
        (u : State)
        → stage u ≡ onabort
        → depth u ≡ suc (suc d)
        → saved u ≡ saved s
        → (stage (leave api true true u) ≡ onabort)
          × (depth (leave api true true u) ≡ suc d)
          × (saved (leave api true true u) ≡ saved s)
          × (d ≡ 0 → memory (leave api true true u) ≡ saved s)
    unfolding leave is_work
    leave_aborted u w k e =
        let ended = doc.end_aborted d u k w in
        rw (leave, w) (ended.0, ended.1, ended.2 ∙ e, λ z. ended.3 z ∙ e)

    closing-Continued :
        (r : Result (Unit {0})) (u : State) → StaysNested u → Continued r u (closing r u)
    unfolding conclude
    closing-Continued (ok a) u v = elim v.open_or_ended [
      | inl w ↦
          let c = doc.commit_keeps u w in
          let done =
            leave_continues (api.commit_tx u) (inr c.0) (c.1 ∙ v.inside) (c.3 ∙ v.same_saved) in
          rw w (done.1, done.3, inl ((λ e. cc), refl, done.0, done.2 ∙ c.2))
      | inr (inl w) ↦
          let done = leave_continues u (inr w) v.inside v.same_saved in
          rw w (done.1, done.3, inl ((λ e. cc), refl, done.0, done.2))
      | inr (inr w) ↦
          let done = leave_aborted u w v.inside v.same_saved in
          rw w (done.1, done.2, inr (refl, (λ e. cc), (λ n. absurd (n refl)), done.0, done.3))
    ]
    closing-Continued (throws x) u v = elim v.open_or_ended [
      | inl w ↦
          let done = leave_continues u (inl w) v.inside v.same_saved in
          (done.1, done.3, inl ((λ q. cc), refl, done.0, done.2))
      | inr (inl w) ↦
          let done = leave_continues u (inr w) v.inside v.same_saved in
          (done.1, done.3, inl ((λ q. cc), refl, done.0, done.2))
      | inr (inr w) ↦
          let done = leave_aborted u w v.inside v.same_saved in
          (done.1, done.2, inr (w, (λ q. cc), (λ n. refl), done.0, done.3))
    ]

    module _ (after : State) (tx : Action State (Unit {0})) {u : State} {r : Result (Unit {0})}
        (taken : Taken api locks (api.begin_tx false s).1 after)
        (does : tx (api.failure_return after) ≡ (r, u)) (inside : StaysNested u) where
      manual_nested : manual api true locks s ≡ (ok true, api.failure_return after)
      unfolding manual
      manual_nested =
          let locked = Taken-add_lock api locks (api.begin_tx false s).1 after taken in
          rw (outer, begin_scope) (ground (arith, locked))

      run-eq-closing : run api true locks tx s ≡ closing r u
      unfolding run
      run-eq-closing = ground (arith, manual_nested, does)

      -- A flat_transaction::run inside another transaction, whose begin succeeds and which takes all
      -- its locks, and whose function leaves its own transaction open, committed or aborted, at its
      -- depth and with what was saved of the memory: the outer transaction is at its depth again. If
      -- the function did not leave an abort, run passes its result or exception on, keeps its
      -- changes, and the outer transaction goes on. If it did, run throws, what the function threw
      -- if it did, and the outer transaction is aborted, with the memory restored if it is the
      -- outermost one.
      pub nested_run_continues : Continued r u (run api true locks tx s)
      nested_run_continues = rw run-eq-closing (closing-Continued r u inside)

  -- `automatic` and `run` do the same, unless the body ends the transaction itself.
  pub automatic-eq-run :
      (is_flat : Bool) (locks : List ℕ) (body : Action State (Unit {0})) (s : State)
      → stage (body (manual api is_flat locks s).1).1 ≢ no_tx
      → stage (body (manual api is_flat locks s).1).1 ≢ finally
      → automatic api is_flat locks body s ≡ run api is_flat locks body s
  unfolding automatic run conclude end_automatic
  automatic-eq-run is_flat locks body s h k = ground arith
