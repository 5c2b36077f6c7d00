-- ===== src/Ebr/Tests.antt =====
-- One worker in a critical section, and a thread that syncs.
use libpmemobj_cpp.Common.{◌+◌, ◌≡◌, ◌≢◌, ◌≤◌, refl, arith, false, none, some, List, [], ◌∷◌}
use libpmemobj_cpp.Ebr.{
  State, Event, load, check, finish, flagged, step_load, step_check, step_finish, step, run,
  staging_epoch, gc_epoch,
}
use libpmemobj_cpp.Ebr.Reclamation.{critical_section_protects}
use libpmemobj_cpp.Ebr.FullSync.{check_all, sync, full_sync, full_sync_returns}
use libpmemobj_cpp.Ebr.Waiting.{full_sync_waits}

abbrev watched : State
watched = record {
  global_epoch = 0;
  local_epoch = λ w. flagged 0;
  entering = λ w. none;
  syncing = false;
  current = 0;
  next = 0;
  syncs = 0;
}

abbrev synced : State
synced = record watched { global_epoch = 1; next = 1; syncs = 1 }

abbrev one_sync : List Event
one_sync = load ∷ check ∷ finish ∷ []

-- A sync that sees the worker in the current epoch succeeds.
first_sync : run 1 one_sync watched ≡ some synced
unfolding run step step_load step_check step_finish
first_sync = refl

-- The next one does not.
second_sync : run 1 (load ∷ check ∷ []) synced ≡ some (record synced { current = 1; next = 0 })
unfolding run step step_load step_check
second_sync = refl

critical_section_protects_example :
    (synced.syncs ≤ watched.syncs + 1) × (gc_epoch synced ≢ staging_epoch watched)
critical_section_protects_example =
    critical_section_protects 1 0 0 one_sync watched synced (omega arith) (omega arith)
      (omega arith) refl refl refl tt first_sync

abbrev unwatched : State
unwatched = record watched { local_epoch = λ w. 0 }

full_sync_twice : full_sync 2 2 0 unwatched ≡ none
unfolding full_sync sync check_all step_load step_check step_finish
full_sync_twice = refl

full_sync_returns_example :
    (t : State) × (full_sync 2 5 0 unwatched ≡ some t)
    × (t.syncs ≡ 3)
    × (t.global_epoch ≡ 0)
    × (t.local_epoch ≡ unwatched.local_epoch)
full_sync_returns_example =
    full_sync_returns 2 2 unwatched (omega arith) (record { inactive = λ w p. refl; idle = refl })

full_sync_waits_example : full_sync 1 10 0 watched ≡ none
full_sync_waits_example =
    full_sync_waits 1 0 0 10 watched (omega arith) (omega arith) (omega arith) refl refl
