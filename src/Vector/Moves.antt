-- ===== src/Vector/Moves.antt =====
-- Moving a run of elements up or down by some slots.
use libpmemobj_cpp.Common.{
  ℕ, zero, suc, ◌+◌, ◌≤◌, ◌<◌, ◌≡◌, refl, subst, List, [], ◌∷◌, length, arith,
}
use libpmemobj_cpp.Vector.{Block, Env}
use libpmemobj_cpp.Vector.Cells.{At}
use libpmemobj_cpp.Vector.Insert.{move_one, move_elements_backward}
use libpmemobj_cpp.Vector.Modify.{move_elements}

module _ {A : Type 0} (env : Env A) where
  pub move_elements-below :
      (s d n : ℕ) (c : Block A) (j : ℕ) → d ≤ s → j < d → move_elements env s d n c j ≡ c j
  unfolding move_elements
  move_elements-below s d zero c j p q = refl
  move_elements-below s d (suc n) c j p q =
      ground (arith, move_elements-below (s + 1) (d + 1) n (move_one env.moved_from s d c) j)

  move_one-At :
      (f : A → A) (s d i : ℕ) (c : Block A) (xs : List A)
      → s < i
      → d < i
      → At c i xs
      → At (move_one f s d c) i xs
  move_one-At f s d i c [] p q h = tt
  move_one-At f s d i c (x ∷ xs) p q h =
      (ground (arith, h.0), move_one-At f s d (i + 1) c xs (omega arith) (omega arith) h.1)

  pub move_elements-At :
      (s d : ℕ) (c : Block A) (xs : List A)
      → d < s
      → At c s xs
      → At (move_elements env s d (length xs) c) d xs
  unfolding move_elements
  move_elements-At s d c [] p h = tt
  move_elements-At s d c (x ∷ xs) p h =
      let c' = move_one env.moved_from s d c in
      (
        ground (arith, move_elements-below (s + 1) (d + 1) (length xs) c' d, h.0),
        move_elements-At (s + 1) (d + 1) c' xs (omega arith)
            (move_one-At env.moved_from s d (s + 1) c xs (omega arith) (omega arith) h.1),
      )

  pub move_elements_backward-below :
      (s d n : ℕ) (c : Block A) (j : ℕ) → s ≤ d → j < s → move_elements_backward env s d n c j ≡ c j
  unfolding move_elements_backward
  move_elements_backward-below s d zero c j p q = refl
  move_elements_backward-below s d (suc n) c j p q =
      ground
        (arith, move_elements_backward-below s d n (move_one env.moved_from (s + n) (d + n) c) j)

  move_elements_backward-above :
      (s d n : ℕ) (c : Block A) (j : ℕ)
      → s ≤ d
      → d + n ≤ j
      → move_elements_backward env s d n c j ≡ c j
  unfolding move_elements_backward
  move_elements_backward-above s d zero c j p q = refl
  move_elements_backward-above s d (suc n) c j p q =
      ground
        (arith, move_elements_backward-above s d n (move_one env.moved_from (s + n) (d + n) c) j)

  -- Where each element goes.
  pub move_elements_backward-to :
      (s d n : ℕ) (c : Block A) (k : ℕ)
      → s < d
      → k < n
      → move_elements_backward env s d n c (d + k) ≡ c (s + k)
  unfolding move_elements_backward
  move_elements_backward-to s d zero c k p q = elim q [ ]
  move_elements_backward-to s d (suc n) c k p q =
      let c' = move_one env.moved_from (s + n) (d + n) c in
      ground
        (arith, move_elements_backward-to s d n c' k, move_elements_backward-above s d n c' (d + k))

  -- Slots that hold what others held.
  pub At-shift :
      (c c' : Block A) (s d : ℕ) (xs : List A)
      → ((k : ℕ) → k < length xs → c' (d + k) ≡ c (s + k))
      → At c s xs
      → At c' d xs
  At-shift c c' s d [] h a = tt
  At-shift c c' s d (x ∷ xs) h a = (
    ground (arith, h 0, a.0),
    At-shift c c' (s + 1) (d + 1) xs
        (λ k p.
          subst (λ i. c' i ≡ c (s + 1 + k)) (omega arith)
            (subst (λ i. c' (d + suc k) ≡ c i) (omega arith) (h (suc k) (omega arith))))
        a.1,
  )
