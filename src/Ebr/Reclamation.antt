-- ===== src/Ebr/Reclamation.antt =====
-- While a worker is in a critical section, what it can see is not collected.
use native.Mathlib.Decide.{ℕ_discrete, dec_lt}
use libpmemobj_cpp.Common.{
  Bool-cases, Option-cases, ℕ, ◌+◌, ◌%◌, ◌≤◌, ◌<◌, ◌≡◌, ◌≢◌, inl, inr, refl, sym, ◌∙◌, ap, subst,
  true, false, none, some, List, [], ◌∷◌, arith,
}
use libpmemobj_cpp.Common.Cases.{some-injective}
use libpmemobj_cpp.Ebr.{
  epochs_number, flagged, blocks, State, Event, enter, publish, leave, load, check, finish, update,
  step_enter, step_publish, step_leave, step_load, step_check, step_finish, step, run,
  staging_epoch, gc_epoch,
}
use libpmemobj_cpp.Ebr.Watched.{
  Watched, next-Watched, stopped-Watched, finished-Watched, loaded-Watched, others-Watched,
  is_inside,
}

-- The worker `w` does not leave.
abbrev pub Stays : ℕ → List Event → Type 0
Stays w [] = Unit {0}
Stays w (leave v ∷ es) = (v ≢ w) × Stays w es
Stays w (e ∷ es) = Stays w es

module _ (n w g k e : ℕ) (registered : w < n) (small_g : g < 3) (small_e : e < 3) where
  check-Watched :
      (t t' : State)
      → (Watched n w g k e registered small_g small_e) t
      → step_check n t ≡ some t'
      → (Watched n w g k e registered small_g small_e) t'
  unfolding step_check
  check-Watched t t' h q = elim (Bool-cases t.syncing) [
    | inr off ↦ absurd (ground (arith, q, off))
    | inl on ↦ elim (dec_lt t.next n) [
      | no all ↦ absurd (ground (arith, q, on, all))
      | yes more ↦ elim (Bool-cases (blocks (t.local_epoch t.next) t.current)) [
        | inl stop ↦
            let result : step_check n t ≡ some (record t { syncing = false }) =
              ground (arith, on, more, stop) in
            subst (Watched n w g k e registered small_g small_e) (some-injective (sym result ∙ q))
              (stopped-Watched n w g k e registered small_g small_e t h)
        | inr passed ↦
            let result : step_check n t ≡ some (record t { next = t.next + 1 }) =
              ground (arith, on, more, passed) in
            subst (Watched n w g k e registered small_g small_e) (some-injective (sym result ∙ q))
              (next-Watched n w g k e registered small_g small_e t h on passed)
      ]
    ]
  ]

  finish-Watched :
      (t t' : State)
      → (Watched n w g k e registered small_g small_e) t
      → step_finish n t ≡ some t'
      → (Watched n w g k e registered small_g small_e) t'
  unfolding step_finish
  finish-Watched t t' h q = elim (Bool-cases t.syncing) [
    | inr off ↦ absurd (ground (arith, q, off))
    | inl on ↦ elim (dec_lt t.next n) [
      | yes more ↦ absurd (ground (arith, q, on, more))
      | no all ↦
          let all' : n ≤ t.next = omega arith in
          let result : step_finish n t
              ≡ some (record t {
                global_epoch = (t.current + 1) % epochs_number;
                syncing = false;
                syncs = t.syncs + 1;
              }) =
            ground (arith, on, all) in
          subst (Watched n w g k e registered small_g small_e) (some-injective (sym result ∙ q))
            (finished-Watched n w g k e registered small_g small_e t h on all')
    ]
  ]

  load-Watched :
      (t t' : State)
      → (Watched n w g k e registered small_g small_e) t
      → step_load t ≡ some t'
      → (Watched n w g k e registered small_g small_e) t'
  unfolding step_load
  load-Watched t t' h q = elim (Bool-cases t.syncing) [
    | inl on ↦ absurd (ground (arith, q, on))
    | inr off ↦
        let result : step_load t
            ≡ some (record t { syncing = true; current = t.global_epoch; next = 0 }) =
          ground (arith, off) in
        subst (Watched n w g k e registered small_g small_e) (some-injective (sym result ∙ q))
          (loaded-Watched n w g k e registered small_g small_e t h)
  ]

  enter-Watched :
      (v : ℕ) (t t' : State)
      → (Watched n w g k e registered small_g small_e) t
      → step_enter v t ≡ some t'
      → (Watched n w g k e registered small_g small_e) t'
  unfolding step_enter
  enter-Watched v t t' h q = elim (Option-cases (t.entering v)) [
    | inr (new_epoch, busy) ↦ absurd (ground (arith, q, busy))
    | inl idle ↦ elim (ℕ_discrete (t.local_epoch v) 0) [
      | no active ↦ absurd (ground (arith, q, idle, active))
      | yes outside ↦
          let entering = update v (some (flagged t.global_epoch)) t.entering in
          let result : step_enter v t ≡ some (record t { entering = entering }) =
            ground (arith, idle, outside) in
          let other : v ≢ w = λ same.
            is_inside n w g k e registered small_g small_e t h
              (ap t.local_epoch (sym same) ∙ outside) in
          let still : entering w ≡ none = ground (arith, other, h.inside) in
          subst (Watched n w g k e registered small_g small_e) (some-injective (sym result ∙ q)) (
            others-Watched n w g k e registered small_g small_e t t.local_epoch entering h refl
              still)
    ]
  ]

  publish-Watched :
      (v : ℕ) (t t' : State)
      → (Watched n w g k e registered small_g small_e) t
      → step_publish v t ≡ some t'
      → (Watched n w g k e registered small_g small_e) t'
  unfolding step_publish
  publish-Watched v t t' h q = elim (Option-cases (t.entering v)) [
    | inl idle ↦ absurd (ground (arith, q, idle))
    | inr (new_epoch, busy) ↦
        let local_epoch = update v new_epoch t.local_epoch in
        let entering = update v none t.entering in
        let result : step_publish v t
            ≡ some (record t { local_epoch = local_epoch; entering = entering }) =
          ground (arith, busy) in
        let other : v ≢ w = λ same. ground (arith, busy, h.inside, ap t.entering same) in
        let kept : local_epoch w ≡ t.local_epoch w = ground (arith, other) in
        let still : entering w ≡ none = ground (arith, other, h.inside) in
        subst (Watched n w g k e registered small_g small_e) (some-injective (sym result ∙ q))
          (others-Watched n w g k e registered small_g small_e t local_epoch entering h kept still)
  ]

  leave-Watched :
      (v : ℕ) (t t' : State)
      → v ≢ w
      → (Watched n w g k e registered small_g small_e) t
      → step_leave v t ≡ some t'
      → (Watched n w g k e registered small_g small_e) t'
  unfolding step_leave
  leave-Watched v t t' other h q = elim (ℕ_discrete (t.local_epoch v) 0) [
    | yes outside ↦ absurd (ground (arith, q, outside))
    | no active ↦
        let local_epoch = update v 0 t.local_epoch in
        let result : step_leave v t ≡ some (record t { local_epoch = local_epoch }) =
          ground (arith, active) in
        let kept : local_epoch w ≡ t.local_epoch w = ground (arith, other) in
        subst (Watched n w g k e registered small_g small_e) (some-injective (sym result ∙ q)) (
          others-Watched n w g k e registered small_g small_e t local_epoch t.entering h kept
            h.inside)
  ]

  step-Stays :
      (ev : Event) (es : List Event) (t u : State)
      → (Watched n w g k e registered small_g small_e) t
      → Stays w (ev ∷ es)
      → step n ev t ≡ some u
      → (Watched n w g k e registered small_g small_e) u × Stays w es
  unfolding step
  step-Stays (enter v) es t u h stays q = (enter-Watched v t u h q, stays)
  step-Stays (publish v) es t u h stays q = (publish-Watched v t u h q, stays)
  step-Stays (leave v) es t u h stays q = (leave-Watched v t u stays.0 h q, stays.1)
  step-Stays load es t u h stays q = (load-Watched t u h q, stays)
  step-Stays check es t u h stays q = (check-Watched t u h q, stays)
  step-Stays finish es t u h stays q = (finish-Watched t u h q, stays)

  run-Watched :
      (es : List Event) (t t' : State)
      → (Watched n w g k e registered small_g small_e) t
      → Stays w es
      → run n es t ≡ some t'
      → (Watched n w g k e registered small_g small_e) t'
  unfolding run step
  run-Watched [] t t' h stays q =
      subst (Watched n w g k e registered small_g small_e) (some-injective q) h
  run-Watched (ev ∷ es) t t' h stays q = elim (Option-cases (step n ev t)) [
    | inl stuck ↦ absurd (ground (arith, q, stuck))
    | inr (u, taken) ↦
        let (here, later) = step-Stays ev es t u h stays taken in
        run-Watched es u t' here later (ground (arith, q, taken))
  ]

-- From a moment at which a worker is in a critical section and no `sync` runs, and as long as the
-- worker does not leave: whatever the threads do, at most one `sync` returns true, and the epoch to
-- collect is never the one that was staging at that moment.
pub critical_section_protects :
    (n w e : ℕ) (es : List Event) (s t : State)
    → w < n
    → s.global_epoch < 3
    → e < 3
    → s.local_epoch w ≡ flagged e
    → s.entering w ≡ none
    → s.syncing ≡ false
    → Stays w es
    → run n es s ≡ some t
    → (t.syncs ≤ s.syncs + 1) × (gc_epoch t ≢ staging_epoch s)
unfolding gc_epoch
critical_section_protects n w e es s t registered small_g small_e published inside quiet stays q =
    let start : Watched n w s.global_epoch s.syncs e registered small_g small_e s = record {
      local_e = published;
      inside = inside;
      phase = inl (refl, refl, λ on. absurd (ground (arith, on, quiet)));
    } in
    let h =
      run-Watched n w s.global_epoch s.syncs e registered small_g small_e es s t start stays q in
    elim h.phase [
      | inl (count, epoch, _) ↦ (omega (arith, count), λ z. omega (arith, z, epoch))
      | inr (count, epoch, _, _) ↦ (omega (arith, count), λ z. omega (arith, z, epoch))
    ]
