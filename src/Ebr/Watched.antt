-- ===== src/Ebr/Watched.antt =====
-- What holds of the epochs while a worker is in its critical section.
use native.Mathlib.Decide.{ℕ_discrete}
use libpmemobj_cpp.Common.{
  ℕ, zero, suc, ◌+◌, ◌%◌, ◌≤◌, ◌<◌, ◌≡◌, ◌≢◌, ◌⊎◌, inl, inr, refl, ◌∙◌, ap, true, false, Option,
  none, arith, bit_and,
}
use libpmemobj_cpp.Ebr.{active_flag, epochs_number, flagged, blocks, State}

pub flagged_lem :
    (e : ℕ)
    → e < 3
    → (flagged e ≡ active_flag + e) × (bit_and (flagged e) active_flag ≡ active_flag)
flagged_lem zero h = (refl, refl)
flagged_lem (suc zero) h = (refl, refl)
flagged_lem (suc (suc zero)) h = (refl, refl)
flagged_lem (suc (suc (suc e))) h = absurd (omega arith)

flagged_ne : (d e : ℕ) → d < 3 → e < 3 → d ≢ e → flagged d ≢ flagged e
flagged_ne d e hd he h q = h (omega (arith, (flagged_lem d hd).0, (flagged_lem e he).0, q))

module _ (n w g k e : ℕ) (registered : w < n) (small_g : g < 3) (small_e : e < 3) where
  -- What holds after steps from a state with the epoch `g` and `k` syncs, in which the worker has
  -- published `e`.
  pub record Watched (t : State) : Type 0 where
    pub local_e : t.local_epoch w ≡ flagged e
    pub inside : t.entering w ≡ none
    pub phase :
        ((t.syncs ≡ k)
          × (t.global_epoch ≡ g)
          × ((t.syncing ≡ true) → (t.current ≡ g) × ((t.next ≤ w) ⊎ (e ≡ g))))
        ⊎ ((t.syncs ≡ k + 1)
            × (t.global_epoch ≡ (g + 1) % 3)
            × (e ≡ g)
            × ((t.syncing ≡ true) → (t.current ≡ (g + 1) % 3) × (t.next ≤ w)))

  not_blocked : (l c : ℕ) → l ≡ flagged e → c < 3 → blocks l c ≡ false → e ≡ c
  not_blocked l c is hc h = elim (ℕ_discrete e c) [
    | yes q ↦ q
    | no q ↦ absurd (ground (arith, (flagged_lem e small_e).1, flagged_ne e c small_e hc q, is, h))
  ]

  pub next-Watched :
      (t : State)
      → Watched t
      → t.syncing ≡ true
      → blocks (t.local_epoch t.next) t.current ≡ false
      → Watched (record t { next = t.next + 1 })
  next-Watched t h on passed =
      let seen : (t.next ≡ w) → t.current < 3 → e ≡ t.current = λ at small.
        not_blocked (t.local_epoch t.next) t.current (ap t.local_epoch at ∙ h.local_e) small
          passed in
      record {
        local_e = h.local_e;
        inside = h.inside;
        phase = elim h.phase [
          | inl (count, epoch, scan) ↦
              let (current, past) = scan on in
              inl (
                count,
                epoch,
                λ _. (
                  current,
                  elim past [
                    | inr q ↦ inr q
                    | inl low ↦ elim (ℕ_discrete t.next w) [
                      | yes at ↦ inr (seen at (omega (arith, current)) ∙ current)
                      | no before ↦ inl (omega arith)
                    ]
                  ],
                ),
              )
          | inr (count, epoch, same, scan) ↦
              let (current, low) = scan on in
              inr (
                count,
                epoch,
                same,
                λ _. (
                  current,
                  elim (ℕ_discrete t.next w) [
                    | yes at ↦
                        absurd (omega (arith, seen at (omega (arith, current)), current, same))
                    | no before ↦ omega arith
                  ],
                ),
              )
        ];
      }

  pub stopped-Watched : (t : State) → Watched t → Watched (record t { syncing = false })
  stopped-Watched t h = record {
    local_e = h.local_e;
    inside = h.inside;
    phase = elim h.phase [
      | inl (count, epoch, scan) ↦ inl (count, epoch, λ q. absurd (ground (arith, q)))
      | inr (count, epoch, same, scan) ↦ inr (count, epoch, same, λ q. absurd (ground (arith, q)))
    ];
  }

  pub finished-Watched :
      (t : State)
      → Watched t
      → t.syncing ≡ true
      → n ≤ t.next
      → Watched (record t {
        global_epoch = (t.current + 1) % epochs_number;
        syncing = false;
        syncs = t.syncs + 1;
      })
  finished-Watched t h on all = record {
    local_e = h.local_e;
    inside = h.inside;
    phase = elim h.phase [
      | inl (count, epoch, scan) ↦
          let (current, past) = scan on in
          inr (
            omega (arith, count),
            ap (λ c. (c + 1) % 3) current,
            elim past [ inl low ↦ absurd (omega arith) | inr q ↦ q ],
            λ q. absurd (ground (arith, q)),
          )
      | inr (count, epoch, same, scan) ↦ let (current, low) = scan on in absurd (omega (arith, low))
    ];
  }

  pub loaded-Watched :
      (t : State)
      → Watched t
      → Watched (record t { syncing = true; current = t.global_epoch; next = 0 })
  loaded-Watched t h = record {
    local_e = h.local_e;
    inside = h.inside;
    phase = elim h.phase [
      | inl (count, epoch, scan) ↦ inl (count, epoch, λ _. (epoch, inl (omega arith)))
      | inr (count, epoch, same, scan) ↦ inr (count, epoch, same, λ _. (epoch, omega arith))
    ];
  }

  -- A step of another worker, or of this one outside its critical section.
  pub others-Watched :
      (t : State) (l : ℕ → ℕ) (en : ℕ → Option ℕ)
      → Watched t
      → l w ≡ t.local_epoch w
      → en w ≡ none
      → Watched (record t { local_epoch = l; entering = en })
  others-Watched t l en h p q = record { local_e = p ∙ h.local_e; inside = q; phase = h.phase }

  pub is_inside : (t : State) → Watched t → t.local_epoch w ≢ 0
  is_inside t h z = absurd (omega (arith, (flagged_lem e small_e).0, h.local_e, z))
