-- ===== src/Tx/Tests.antt =====
-- A small libpmemobj that meets `Documented`, and the theorems run on it.
use libpmemobj_cpp.Common.{
  ℕ, zero, suc, ◌+◌, ◌*◌, ◌≡◌, ◌≢◌, refl, inl, inr, true, false, List, [], ◌∷◌, none, ◌==◌,
  if◌then◌else◌, arith,
}
use libpmemobj_cpp.Common.Effect.{Result, user, transaction_error, ok, throws, Action}
use libpmemobj_cpp.Tx.{
  Api, Stage, no_tx, work, oncommit, onabort, finally, is_work, add_lock, manual, leave, conclude,
  run, automatic, abort, commit,
}
use libpmemobj_cpp.Tx.Contract.{Documented}
use libpmemobj_cpp.Tx.Atomic.{Closed, run_atomic, manual_lock_failure}
use libpmemobj_cpp.Tx.Nested.{Continued, nested_run_continues, automatic-eq-run}
use libpmemobj_cpp.Tx.Callback.{
  c_callback, register_callback, push_back, get_tx_data, register_all, call_all, for_stage,
  one_by_one, c_callback_in_order,
}

-- One cell of memory.
record Machine : Type 0 where
  cell : ℕ
  backup : ℕ
  nesting : ℕ
  at : Stage
  error : ℕ

abbrev opens : Stage → Machine → ℕ × Machine
opens no_tx m = (0, record m { backup = m.cell; nesting = 1; at = work })
opens work m = (0, record m { nesting = suc m.nesting })
opens _ m = (22, m)

abbrev ended : ℕ → Stage → Machine → Machine
ended zero stg m = record m { at = no_tx; nesting = 0 }
ended (suc zero) stg m = record m { at = no_tx; nesting = 0 }
ended (suc (suc zero)) onabort m = record m { at = onabort; nesting = 1; cell = m.backup }
ended (suc (suc (suc d))) onabort m = record m { at = onabort; nesting = suc (suc d) }
ended (suc (suc d)) _ m = record m { at = work; nesting = suc d }

abbrev aborted : ℕ → ℕ → Machine → Machine
aborted err n m =
    if n == 1
    then record m { at = onabort; error = err; cell = m.backup }
    else record m { at = onabort; error = err }

-- Lock 13 is always taken.
abbrev machine : Api
machine = record {
  State = Machine;
  stage = λ m. m.at;
  errno = λ m. m.error;
  begin_tx = λ cb m. opens m.at m;
  lock = λ l m. (if l == 13 then 16 else 0, m);
  commit_tx = λ m. record m { at = oncommit };
  abort_tx = λ err m. aborted err m.nesting m;
  end_tx = λ m. ended m.nesting m.at m;
  failure_return = λ m. m;
}

aborts_outer :
    (d : ℕ) (m : Machine)
    → let t = ended (suc (suc d)) onabort m in
      (t.at ≡ onabort) × (t.nesting ≡ suc d) × (t.backup ≡ m.backup) × (d ≡ 0 → t.cell ≡ m.backup)
aborts_outer zero m = (refl, refl, refl, λ z. refl)
aborts_outer (suc d) m = (refl, refl, refl, λ z. absurd (omega arith))

ended_aborted :
    (d n : ℕ) (stg : Stage) (m : Machine)
    → n ≡ suc (suc d)
    → stg ≡ onabort
    → let t = ended n stg m in
      (t.at ≡ onabort) × (t.nesting ≡ suc d) × (t.backup ≡ m.backup) × (d ≡ 0 → t.cell ≡ m.backup)
ended_aborted d n stg m e c = rw (e, c) (aborts_outer d m)

machine-Documented : Documented machine
machine-Documented = record {
  Memory = ℕ;
  memory = λ m. m.cell;
  saved = λ m. m.backup;
  depth = λ m. m.nesting;
  begin_outer = λ cb m e b. ground arith;
  begin_nested = λ cb m e b. ground arith;
  lock_keeps = λ l m. (refl, refl, refl, refl);
  failure_return_keeps = λ m. (refl, refl, refl, refl);
  commit_keeps = λ m e. (refl, refl, refl, refl);
  abort_restores = λ err m e d. ground arith;
  end_outer = λ m d. ground arith;
  end_committed = λ d m e c. ground arith;
  end_aborted = λ d m e c. ended_aborted d m.nesting m.at m e c;
}

abbrev idle : Machine
idle = record { cell = 4; backup = 0; nesting = 0; at = no_tx; error = 0 }

-- A user's function that writes, and one that writes and throws.
abbrev writes : Action Machine (Unit {0})
writes m = (ok tt, record m { cell = 9 })

abbrev writes_and_throws : Action Machine (Unit {0})
writes_and_throws m = (throws (user 1), record m { cell = 9 })

-- One that aborts by the library's own call.
gives_up : Action Machine (Unit {0})
gives_up m = abort machine 7 (record m { cell = 9 })

abbrev open_machine : Machine
open_machine = record { cell = 4; backup = 4; nesting = 1; at = work; error = 0 }

runs :
    ((run machine false [] writes idle).1.cell ≡ 9)
    × ((run machine false [] writes_and_throws idle).1.cell ≡ 4)
    × ((run machine true [] gives_up idle).1.cell ≡ 4)
    × ((run machine true [] (run machine true [] writes_and_throws) idle).0 ≡ throws (user 1))
    × ((commit machine idle).1.cell ≡ 4)
unfolding run manual leave conclude is_work add_lock gives_up abort commit
runs = (refl, refl, refl, refl, refl)

abbrev thrown : Result (Unit {0})
thrown = throws (user 1)

abbrev at_work : Stage
at_work = work

-- The state in which the function of an outermost run on the idle machine starts.
abbrev begun : Machine
begun = record idle { backup = 4; nesting = 1; at = work }

run_atomic_example :
    Closed machine machine-Documented false
      (7 ∷ [])
      idle
      refl
      refl
      thrown
      (record begun { cell = 9 })
      (run machine false (7 ∷ []) writes_and_throws idle)
unfolding machine-Documented
run_atomic_example =
    run_atomic machine machine-Documented false (7 ∷ []) idle refl refl begun writes_and_throws
      (refl, refl) refl (record { inside = refl; same_saved = refl; open_or_ended = inl refl })

manual_lock_failure_example :
    let (r, t) = manual machine true (13 ∷ 7 ∷ []) idle in
    (r ≡ throws transaction_error) × (t.at ≡ no_tx) × (t.cell ≡ 4)
unfolding machine-Documented manual
manual_lock_failure_example =
    manual_lock_failure machine machine-Documented true (13 ∷ 7 ∷ []) idle refl refl
      (inl (λ e. omega arith))

open_depth : machine-Documented.depth open_machine ≡ 1
unfolding machine-Documented
open_depth = refl

-- One that aborts by itself.
abbrev aborts : Action Machine (Unit {0})
aborts m = (throws (user 1), record m { at = onabort; error = 7 })

nested_run_continues_example :
    Continued machine machine-Documented [] 0 open_machine refl open_depth refl thrown
      (record open_machine { nesting = 2; at = onabort; error = 7 })
      (run machine true [] aborts open_machine)
unfolding machine-Documented
nested_run_continues_example =
    nested_run_continues machine machine-Documented [] 0 open_machine refl open_depth refl
      (record open_machine { nesting = 2 }) aborts refl refl
      (record { inside = refl; same_saved = refl; open_or_ended = inr (inr refl) })

automatic-eq-run_example :
    automatic machine false [] writes_and_throws idle ≡ run machine false [] writes_and_throws idle
unfolding manual add_lock
automatic-eq-run_example =
    automatic-eq-run machine machine-Documented false [] writes_and_throws idle (λ e. cc) (λ e. cc)

abbrev regs : List (Stage × (ℕ → ℕ))
regs = (oncommit, λ n. n + 1) ∷ (onabort, λ _. 0) ∷ (oncommit, λ n. n * 10) ∷ []

callbacks_run : (c_callback oncommit (register_all regs none) 3).1 ≡ 40
unfolding c_callback register_all register_callback push_back get_tx_data call_all is_work
callbacks_run = refl

c_callback_in_order_example :
    ((c_callback oncommit (register_all regs none) 3).1 ≡ one_by_one (for_stage oncommit regs) 3)
    × (oncommit ≢ finally
        → (c_callback oncommit (register_all regs none) 3).0 ≡ register_all regs none)
    × (oncommit ≡ finally → (c_callback oncommit (register_all regs none) 3).0 ≡ none)
c_callback_in_order_example = c_callback_in_order oncommit regs 3 (λ e. cc)
