-- ===== src/Ebr/FullSync.antt =====
-- include/libpmemobj++/detail/ebr.hpp: `full_sync`, while no other thread takes a step.
use Prim.Native.Nat.{bit_and-bitwise}
use libpmemobj_cpp.Common.{
  ℕ, zero, suc, ◌+◌, ◌%◌, ◌≤◌, ◌<◌, ◌≡◌, refl, ◌∙◌, ap, arith, Bool, true, false, not, ◌&&◌, ◌==◌,
  if◌then◌else◌, Option, none, some, bit_and,
}
use libpmemobj_cpp.Ebr.{
  active_flag, epochs_number, flagged, blocks, State, step_load, step_check, step_finish,
}

-- The loop of `sync`, for at most `k` workers
unfoldable pub check_all : ℕ → ℕ → State → State
unfolding step_check
check_all n zero s = s
check_all n (suc k) s = elim (step_check n s) [ none ↦ s | some t ↦ check_all n k t ]

-- `sync`, from its load to its return
unfoldable pub sync : ℕ → State → State × Bool
unfolding step_load check_all step_finish
sync n s = elim (step_load s) [
  | none ↦ (s, false)
  | some t ↦
      let u = check_all n n t in elim (step_finish n u) [ none ↦ (u, false) | some v ↦ (v, true) ]
]

-- `full_sync`, on fuel for its loop: none if it still runs.
unfoldable pub full_sync : ℕ → ℕ → ℕ → State → Option State
unfolding sync
full_sync n zero syncs_cnt s = none
full_sync n (suc fuel) syncs_cnt s =
    let (t, announced) = sync n s in
    let rest = full_sync n fuel (if announced then syncs_cnt + 1 else syncs_cnt) t in
    if announced && syncs_cnt + 1 == epochs_number then some t else rest

-- No worker is in a critical section, and no sync runs.
pub record IsQuiet (n : ℕ) (s : State) : Type 0 where
  pub inactive : (w : ℕ) → w < n → s.local_epoch w ≡ 0
  pub idle : s.syncing ≡ false

not_blocked : (e current : ℕ) → e ≡ 0 → blocks e current ≡ false
not_blocked e current h =
    ap (λ x. not (bit_and x active_flag == 0) && not (x == flagged current)) h
    ∙ ground (arith, bit_and-bitwise 0 active_flag)

abbrev passed : ℕ → State → State
passed next s = record s { next = next }

check_passes :
    (n : ℕ) (s : State)
    → s.syncing ≡ true
    → s.next < n
    → s.local_epoch s.next ≡ 0
    → step_check n s ≡ some (passed (s.next + 1) s)
unfolding step_check
check_passes n s on more h =
    ground (arith, on, more, not_blocked (s.local_epoch s.next) s.current h)

check_all_passes :
    (n k : ℕ) (s : State)
    → s.syncing ≡ true
    → s.next + k ≤ n
    → ((w : ℕ) → w < n → s.local_epoch w ≡ 0)
    → check_all n k s ≡ passed (s.next + k) s
unfolding check_all
check_all_passes n zero s on more h = ap (λ m. record s { next = m }) (omega arith)
check_all_passes n (suc k) s on more h =
    ap (λ (r : Option State). elim r [ none ↦ s | some t ↦ check_all n k t ])
      (check_passes n s on (omega arith) (h s.next (omega arith)))
    ∙ check_all_passes n k (record s { next = s.next + 1 }) on (omega arith) h
    ∙ ap (λ m. record s { next = m }) (omega arith)

-- The state after a `sync` that returned true
abbrev pub announced : ℕ → State → State
announced n s = record s {
  global_epoch = (s.global_epoch + 1) % epochs_number;
  syncing = false;
  current = s.global_epoch;
  next = n;
  syncs = s.syncs + 1;
}

sync_announces : (n : ℕ) (s : State) → IsQuiet n s → sync n s ≡ (announced n s, true)
unfolding sync step_load step_finish
sync_announces n s h =
    let t : State = record s { syncing = true; current = s.global_epoch; next = 0 } in
    let none_skipped : 0 + n ≡ n = omega arith in
    let finished : State → State × Bool =
      λ u. elim (step_finish n u) [ none ↦ (u, false) | some v ↦ (v, true) ] in
    let loaded : step_load s ≡ some t = ground (arith, h.idle) in
    let done : step_finish n (record t { next = n }) ≡ some (announced n s) = ground arith in
    ap (λ (r : Option State). elim r [ none ↦ (s, false) | some t ↦ finished (check_all n n t) ])
      loaded
    ∙ ap finished
        (check_all_passes n n t refl (omega arith) h.inactive ∙ ap (λ m. passed m t) none_skipped)
    ∙ ap (λ (r : Option State). elim r [ none ↦ (passed n t, false) | some v ↦ (v, true) ]) done

full_sync_step :
    (n fuel cnt : ℕ) (s : State)
    → IsQuiet n s
    → full_sync n (suc fuel) cnt s ≡ (
        if cnt + 1 == epochs_number
        then some (announced n s)
        else full_sync n fuel (cnt + 1) (announced n s))
unfolding full_sync
full_sync_step n fuel cnt s h =
    ap
      (λ (r : State × Bool).
        let rest = full_sync n fuel (if r.1 then cnt + 1 else cnt) r.0 in
        if r.1 && cnt + 1 == epochs_number then some r.0 else rest)
      (sync_announces n s h)

-- While no worker is in a critical section and no other thread takes a step, `full_sync` returns
-- after three rounds of its loop: it announced three epochs, so that the epoch is again the one it
-- was, and left the workers as they were.
pub full_sync_returns :
    (n fuel : ℕ) (s : State)
    → s.global_epoch < epochs_number
    → IsQuiet n s
    → (t : State) × (full_sync n (suc (suc (suc fuel))) 0 s ≡ some t)
      × (t.syncs ≡ s.syncs + 3)
      × (t.global_epoch ≡ s.global_epoch)
      × (t.local_epoch ≡ s.local_epoch)
full_sync_returns n fuel s small h =
    let quiet : (t : State) → IsQuiet n t → IsQuiet n (announced n t) =
      λ t q. record { inactive = q.inactive; idle = refl } in
    let one = announced n s in
    let two = announced n one in
    (
      announced n two,
      full_sync_step n (suc (suc fuel)) 0 s h
          ∙ full_sync_step n (suc fuel) 1 one (quiet s h)
          ∙ full_sync_step n fuel 2 two (quiet one (quiet s h)),
      omega arith,
      omega (arith, small),
      refl,
    )
