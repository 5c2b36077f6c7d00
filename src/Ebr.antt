-- ===== src/Ebr.antt =====
-- include/libpmemobj++/detail/ebr.hpp: epoch-based reclamation. Each load and store of a shared
-- atomic is a step of its own, and an interleaving of the threads is a list of events. A fixed
-- number of workers is registered, and one thread calls `sync`.
pub mod Watched
pub mod Reclamation
pub mod FullSync
pub mod Waiting
mod Tests
use libpmemobj_cpp.Common.{
  ℕ, ◌+◌, ◌%◌, ◌^◌, ◌==◌, ltb, if◌then◌else◌, Bool, true, false, not, ◌&&◌, Option, none, some,
  List, [], ◌∷◌, bit_and, bit_or,
}

-- `static_cast<size_t>(1) << (sizeof(size_t) * 8 - 1)`
abbrev pub active_flag : ℕ
active_flag = 2 ^ 63

abbrev pub epochs_number : ℕ
epochs_number = 3

abbrev pub flagged : ℕ → ℕ
flagged epoch = bit_or epoch active_flag

-- The test on a worker's `local_e` that makes `sync` return false
abbrev pub blocks : ℕ → ℕ → Bool
blocks local_e current_epoch =
    not (bit_and local_e active_flag == 0) && not (local_e == flagged current_epoch)

-- `entering` is the local variable `new_epoch` of a worker between its load and its store;
-- `current` and `next` are the locals of a `sync` that runs, and `syncs` counts those that
-- returned true.
pub record State : Type 0 where
  pub global_epoch : ℕ
  pub local_epoch : ℕ → ℕ
  pub entering : ℕ → Option ℕ
  pub syncing : Bool
  pub current : ℕ
  pub next : ℕ
  pub syncs : ℕ

pub data Event : Type 0 where
  enter publish leave : ℕ → Event
  load check finish : Event

abbrev pub update {ℓ} : {A : Type ℓ} → ℕ → A → (ℕ → A) → ℕ → A
update w a f i = if w == i then a else f i

-- The first half of `critical`, which a worker that is not in a critical section may take
unfoldable pub step_enter : ℕ → State → Option State
step_enter w s =
    let entered = record s { entering = update w (some (flagged s.global_epoch)) s.entering } in
    elim (s.entering w) [
      | some new_epoch ↦ none
      | none ↦ if s.local_epoch w == 0 then some entered else none
    ]

-- Its store of the local epoch
unfoldable pub step_publish : ℕ → State → Option State
step_publish w s = elim (s.entering w) [
  | none ↦ none
  | some new_epoch ↦ some (record s {
    local_epoch = update w new_epoch s.local_epoch;
    entering = update w none s.entering;
  })
]

-- The end of `critical`
unfoldable pub step_leave : ℕ → State → Option State
step_leave w s =
    if s.local_epoch w == 0
    then none
    else some (record s { local_epoch = update w 0 s.local_epoch })

-- The load of `sync`, one round of its loop over the `n` workers, and its store
unfoldable pub step_load : State → Option State
step_load s =
    if s.syncing
    then none
    else some (record s { syncing = true; current = s.global_epoch; next = 0 })

unfoldable pub step_check : ℕ → State → Option State
step_check n s =
    if s.syncing && ltb s.next n
    then if blocks (s.local_epoch s.next) s.current
      then some (record s { syncing = false })
      else some (record s { next = s.next + 1 })
    else none

unfoldable pub step_finish : ℕ → State → Option State
step_finish n s =
    if s.syncing && not (ltb s.next n)
    then some (record s {
      global_epoch = (s.current + 1) % epochs_number;
      syncing = false;
      syncs = s.syncs + 1;
    })
    else none

unfoldable pub step : ℕ → Event → State → Option State
unfolding step_enter step_publish step_leave step_load step_check step_finish
step n (enter w) s = step_enter w s
step n (publish w) s = step_publish w s
step n (leave w) s = step_leave w s
step n load s = step_load s
step n check s = step_check n s
step n finish s = step_finish n s

-- The steps of an interleaving, if each can be taken
unfoldable pub run : ℕ → List Event → State → Option State
unfolding step
run n [] s = some s
run n (e ∷ es) s = elim (step n e s) [ none ↦ none | some t ↦ run n es t ]

abbrev pub staging_epoch : State → ℕ
staging_epoch s = s.global_epoch

unfoldable pub gc_epoch : State → ℕ
gc_epoch s = (s.global_epoch + 1) % epochs_number
