-- ===== src/BasicString/Blocks.antt =====
-- The slots of an array, and the vector, after an edit.
use libpmemobj_cpp.Common.{
  ℕ, zero, suc, ◌+◌, ◌-◌, ◌^◌, ◌≤◌, ◌≡◌, refl, subst, sym, ap, ◌∙◌, inl, inr, some, List, [], ◌∷◌,
  ◌++◌, map, length, arith, length-append, length-map, true, Option-cases,
}
use mathlib.Core.List.{append-nil}
use mathlib.Core.Path.{Σ_path}
use libpmemobj_cpp.Math.PowerOfTwo.{next_pow_2_lem}
use libpmemobj_cpp.Common.Effect.{ok}
use libpmemobj_cpp.Vector.{Block, Vector, Env}
use libpmemobj_cpp.Vector.Cells.{
  create_all, At, At-Agree, At-append, create_all-At, create_all-outside,
}
use libpmemobj_cpp.Vector.Private.{get_recommended_capacity}
use libpmemobj_cpp.Vector.Insert.{
  internal_insert, insert_range, move_elements_backward, construct_or_assign, move_one,
}
use libpmemobj_cpp.Vector.Content.{Holds, NoFailure, add_data_to_tx-OnlyAdds}
use libpmemobj_cpp.Vector.Insertion.{insert_range_contents}
use libpmemobj_cpp.Vector.Moves.{At-shift}
use libpmemobj_cpp.Vector.Presence.{insert_range_present}
use libpmemobj_cpp.BasicString.Representation.{traits_move}

-- Of `n` characters and a null character: the string is short enough for the vector to hold it.
abbrev pub Fits : Env ℕ → ℕ → Type 0
Fits env n = (get_recommended_capacity (n + 1) ≤ env.max_size) × (n + 1 ≤ 2 ^ 63)

pub Fits-allowed : (env : Env ℕ) (n : ℕ) → Fits env n → n + 1 ≤ env.max_size
unfolding get_recommended_capacity
Fits-allowed env n h =
    let (m, e, low, high) = next_pow_2_lem (n + 1) (omega arith) h.1 in omega (arith, h.0, e, low)

At-append_front :
    (c : Block ℕ) (xs ys : List ℕ) → At c 0 xs → At c (length xs) ys → At c 0 (xs ++ ys)
At-append_front c xs ys hx hy = At-append c 0 xs ys hx (subst (λ k. At c k ys) (omega arith) hy)

traits_move-At :
    (env : Env ℕ) (dest first : ℕ) (c : Block ℕ) (xs : List ℕ)
    → At c first xs
    → At (traits_move dest first (length xs) c) dest xs
traits_move-At env dest first c xs h =
    At-shift env c (traits_move dest first (length xs) c) first dest xs
      (λ k p.
        let e : dest + k - dest ≡ k = omega arith in ground (arith, ap (λ i. c (first + i)) e))
      h

-- A source put behind `ps`, after `ss` has moved to where the source ends.
pub gap_filled :
    (env : Env ℕ) (c : Block ℕ) (from : ℕ) (ps ys ss : List ℕ)
    → At c 0 ps
    → At c from ss
    → At
        (create_all
          (length ps)
          (map some ys)
          (traits_move (length ps + length ys) from (length ss) c))
        0
        (ps ++ ys ++ ss)
gap_filled env c from ps ys ss hp hs =
    let n = length ps + length ys in
    let moved = traits_move n from (length ss) c in
    let filled = create_all (length ps) (map some ys) moved in
    let len : length (map some ys) ≡ length ys = length-map ys (λ x. some x) in
    At-append_front filled (ps ++ ys) ss
      (At-append_front filled ps ys
        (At-Agree c filled 0 ps
          (λ j p q.
            create_all-outside (length ps) (map some ys) moved j (inl (omega arith)) ∙ ground arith)
          hp)
        (create_all-At (length ps) ys moved))
      (At-Agree moved filled (length (ps ++ ys)) ss
        (λ j p q.
          create_all-outside (length ps) (map some ys) moved j
            (inr (omega (arith, len, length-append ps ys))))
        (subst (λ k. At moved k ss) (sym (length-append ps ys))
          (traits_move-At env n from c ss hs)))

module _ (env : Env ℕ) (safe : NoFailure env) (copies : (x : ℕ) → env.moved_from x ≡ x) where
  move_one_nothing : (i : ℕ) (c : Block ℕ) (j : ℕ) → move_one env.moved_from i i c j ≡ c j
  move_one_nothing i c j = elim (Option-cases (c i)) [
    | inl e ↦ ground (arith, e)
    | inr (a, e) ↦ ground (arith, e, copies a)
  ]

  move_nothing : (s n : ℕ) (c : Block ℕ) (j : ℕ) → move_elements_backward env s s n c j ≡ c j
  unfolding move_elements_backward
  move_nothing s zero c j = refl
  move_nothing s (suc n) c j =
      move_nothing s n (move_one env.moved_from (s + n) (s + n) c) j ∙ move_one_nothing (s + n) c j

  insert_nothing :
      (v : Vector ℕ) (idx : ℕ) (xs : List ℕ)
      → Holds v xs
      → v.size ≤ v.capacity
      → (w : Vector ℕ) × (insert_range env idx [] v ≡ (ok tt, w))
        × Holds w xs
        × (w.size ≤ w.capacity)
        × (w.has_data ≡ v.has_data)
  unfolding insert_range internal_insert construct_or_assign create_all
  insert_nothing v idx xs h room =
      let (log, e) =
        add_data_to_tx-OnlyAdds env safe idx (v.size - idx + 0) (record v { added = [] }) in
      let at : idx + 0 ≡ idx = omega arith in
      let block' = move_elements_backward env idx (idx + 0) (v.size - idx) v.block in
      let same : (j : ℕ) → block' j ≡ v.block j = λ j.
        subst (λ k. move_elements_backward env idx k (v.size - idx) v.block j ≡ v.block j) (sym at)
          (move_nothing idx (v.size - idx) v.block j) in
      (
        record v { added = log; block = block'; size = v.size + 0 },
        ground (arith, e),
        (omega (arith, h.0), At-Agree v.block block' 0 xs (λ j p q. same j) h.1),
        omega arith,
        refl,
      )

  -- Insertion of any number of characters, none included.
  pub vector_insert_any :
      (v : Vector ℕ) (ps ys ss : List ℕ)
      → Holds v (ps ++ ss)
      → v.size ≤ v.capacity
      → v.has_data ≡ true
      → get_recommended_capacity (v.size + length ys) ≤ env.max_size
      → v.size + length ys ≤ 2 ^ 63
      → (w : Vector ℕ) × (insert_range env (length ps) ys v ≡ (ok tt, w))
        × Holds w (ps ++ ys ++ ss)
        × (w.size ≤ w.capacity)
        × (w.has_data ≡ true)
  vector_insert_any v ps [] ss h room present allowed bound =
      let (w, run, held, fits, same) = insert_nothing v (length ps) (ps ++ ss) h room in
      (w, run, rw append-nil held, fits, same ∙ present)
  vector_insert_any v ps (y ∷ ys) ss h room present allowed bound =
      let out = insert_range env (length ps) (y ∷ ys) v in
      let (run, held, fits) =
        insert_range_contents env v ps (y ∷ ys) ss safe h (omega arith) allowed bound in
      (
        out.1,
        Σ_path run refl,
        held,
        fits,
        insert_range_present env v (y ∷ ys) (length ps) safe present (omega arith) allowed bound,
      )
