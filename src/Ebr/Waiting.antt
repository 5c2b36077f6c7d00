-- ===== src/Ebr/Waiting.antt =====
-- include/libpmemobj++/detail/ebr.hpp: `full_sync`, while a worker is in a critical section.
use native.Mathlib.Decide.{ℕ_discrete}
use libpmemobj_cpp.Common.{
  ℕ, zero, suc, ◌+◌, ◌%◌, ◌≤◌, ◌<◌, ◌≡◌, ◌≢◌, ◌⊎◌, inl, inr, refl, sym, ◌∙◌, ap, subst, arith, Bool,
  true, false, Option, none, some, Bool-cases,
}
use libpmemobj_cpp.Ebr.{epochs_number, flagged, blocks, State, step_load, step_check, step_finish}
use libpmemobj_cpp.Ebr.Watched.{flagged_lem}
use libpmemobj_cpp.Ebr.FullSync.{check_all, sync, full_sync}

stopped : (n k : ℕ) (s : State) → s.syncing ≡ false → check_all n k s ≡ s
unfolding check_all step_check
stopped n zero s off = refl
stopped n (suc k) s off =
    let no_step : step_check n s ≡ none = ground (arith, off) in
    ap (λ (r : Option State). elim r [ none ↦ s | some t ↦ check_all n k t ]) no_step

-- What the loop of `sync` leaves: it stopped, or no worker that it saw blocks.
abbrev Checked : ℕ → State → State → Type 0
Checked k s u =
    (u.global_epoch ≡ s.global_epoch)
    × (u.local_epoch ≡ s.local_epoch)
    × (u.current ≡ s.current)
    × ((u.syncing ≡ false)
        ⊎ ((u.syncing ≡ true)
            × (u.next ≡ s.next + k)
            × ((w : ℕ) → s.next ≤ w → w < s.next + k → blocks (s.local_epoch w) s.current ≡ false)))

check_all-Checked :
    (n k : ℕ) (s : State) → s.syncing ≡ true → s.next + k ≤ n → Checked k s (check_all n k s)
unfolding check_all step_check
check_all-Checked n zero s on low =
    (refl, refl, refl, inr (on, omega arith, λ w p q. absurd (omega arith)))
check_all-Checked n (suc k) s on low =
    let go : Option State → State = λ r. elim r [ none ↦ s | some t ↦ check_all n k t ] in
    elim (Bool-cases (blocks (s.local_epoch s.next) s.current)) [
      | inl stop ↦
          let t : State = record s { syncing = false } in
          let stepped : step_check n s ≡ some t = ground (arith, on, low, stop) in
          let result : check_all n (suc k) s ≡ t = ap go stepped ∙ stopped n k t refl in
          subst (Checked (suc k) s) (sym result) (refl, refl, refl, inl refl)
      | inr clear ↦
          let t : State = record s { next = s.next + 1 } in
          let stepped : step_check n s ≡ some t = ground (arith, on, low, clear) in
          let result : check_all n (suc k) s ≡ check_all n k t = ap go stepped in
          let (epoch, local_e, current, rest) = check_all-Checked n k t on (omega arith) in
          subst (Checked (suc k) s) (sym result) (
            epoch,
            local_e,
            current,
            elim rest [
              | inl off ↦ inl off
              | inr (still, next, seen) ↦ inr (
                still,
                omega (arith, next),
                λ w p q. elim (ℕ_discrete s.next w) [
                  | yes at ↦ subst (λ v. blocks (s.local_epoch v) s.current ≡ false) at clear
                  | no past ↦ seen w (omega arith) (omega arith)
                ],
              )
            ],
          )
    ]

-- What a `sync` leaves, by what it returns.
abbrev Synced : ℕ → State → State × Bool → Type 0
Synced n s r =
    (r.0.syncing ≡ false)
    × (r.0.local_epoch ≡ s.local_epoch)
    × (((r.1 ≡ false) × (r.0.global_epoch ≡ s.global_epoch))
        ⊎ ((r.1 ≡ true)
            × (r.0.global_epoch ≡ (s.global_epoch + 1) % epochs_number)
            × ((w : ℕ) → w < n → blocks (s.local_epoch w) s.global_epoch ≡ false)))

sync-Synced : (n : ℕ) (s : State) → s.syncing ≡ false → Synced n s (sync n s)
unfolding sync step_load step_finish
sync-Synced n s idle =
    let t : State = record s { syncing = true; current = s.global_epoch; next = 0 } in
    let u = check_all n n t in
    let finished : Option State → State × Bool =
      λ r. elim r [ none ↦ (u, false) | some v ↦ (v, true) ] in
    let loaded : step_load s ≡ some t = ground (arith, idle) in
    let result : sync n s ≡ finished (step_finish n u) =
      ap
        (λ (r : Option State). elim r [
          | none ↦ (s, false)
          | some t ↦
              let u = check_all n n t in
              elim (step_finish n u) [ none ↦ (u, false) | some v ↦ (v, true) ]
        ])
        loaded in
    let (epoch, local_e, current, rest) = check_all-Checked n n t refl (omega arith) in
    elim rest [
      | inl off ↦
          let no_step : step_finish n u ≡ none = ground (arith, off) in
          subst (Synced n s) (sym (result ∙ ap finished no_step)) (off, local_e, inl (refl, epoch))
      | inr (on, next, seen) ↦
          let v : State = record u {
            global_epoch = (u.current + 1) % epochs_number;
            syncing = false;
            syncs = u.syncs + 1;
          } in
          let stepped : step_finish n u ≡ some v = ground (arith, on, next) in
          subst (Synced n s) (sym (result ∙ ap finished stepped)) (
            refl,
            local_e,
            inr (refl, omega (arith, current), λ w p. seen w (omega arith) (omega arith)),
          )
    ]

same_epoch : (e g : ℕ) → e < 3 → g < 3 → blocks (flagged e) g ≡ false → e ≡ g
same_epoch e g small_e small_g h =
    let (is_e, active) = flagged_lem e small_e in
    let (is_g, _) = flagged_lem g small_g in
    elim (ℕ_discrete e g) [
      | yes at ↦ at
      | no off ↦
          let apart : flagged e ≢ flagged g = λ z. off (omega (arith, is_e, is_g, z)) in
          absurd (ground (arith, active, apart, h))
    ]

module _ (n w e : ℕ) (registered : w < n) (small_e : e < 3) where
  waits :
      (fuel cnt : ℕ) (s : State)
      → s.global_epoch < 3
      → s.syncing ≡ false
      → s.local_epoch w ≡ flagged e
      → (cnt ≡ 0) ⊎ ((cnt ≡ 1) × (e ≢ s.global_epoch))
      → full_sync n fuel cnt s ≡ none
  unfolding full_sync
  waits zero cnt s small idle local_e counted = refl
  waits (suc fuel) cnt s small idle local_e counted =
      let r = sync n s in
      let (idle_r, local_r, rest) = sync-Synced n s idle in
      let local_w : r.0.local_epoch w ≡ flagged e = ap (λ (f : ℕ → ℕ). f w) local_r ∙ local_e in
      elim rest [
        | inl (failed, epoch) ↦
            let later =
              waits fuel cnt r.0 (omega (arith, epoch, small)) idle_r local_w
                (elim counted [ inl c ↦ inl c | inr (c, off) ↦ inr (c, λ z. off (z ∙ epoch)) ]) in
            ground (arith, failed, later)
        | inr (synced, epoch, seen) ↦
            let same : e ≡ s.global_epoch =
              same_epoch e s.global_epoch small_e small
                (subst (λ x. blocks x s.global_epoch ≡ false) local_e (seen w registered)) in
            elim counted [
              | inr (c, off) ↦ absurd (off same)
              | inl c ↦
                  let later =
                    waits fuel 1 r.0 (omega (arith, epoch)) idle_r local_w
                      (inr (refl, λ z. omega (arith, z, epoch, same, small))) in
                  ground (arith, synced, later, c)
            ]
      ]

-- While a registered worker stays in the critical section that it has entered, in whatever epoch,
-- and no other thread takes a step, `full_sync` does not return, however many rounds its loop
-- takes.
pub full_sync_waits :
    (n w e fuel : ℕ) (s : State)
    → w < n
    → e < epochs_number
    → s.global_epoch < epochs_number
    → s.syncing ≡ false
    → s.local_epoch w ≡ flagged e
    → full_sync n fuel 0 s ≡ none
full_sync_waits n w e fuel s registered small_e small idle local_e =
    waits n w e registered small_e fuel 0 s small idle local_e (inl refl)
