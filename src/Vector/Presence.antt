-- ===== src/Vector/Presence.antt =====
-- An insertion and the removal of elements leave a vector with memory.
use native.Mathlib.Decide.{dec_le}
use libpmemobj_cpp.Common.{
  ℕ, ◌+◌, ◌-◌, ◌^◌, ◌≤◌, ◌<◌, ◌≡◌, ap, Option, none, some, List, [], map, length, arith, true,
  Bool-cases, inl, inr, ◌==◌, ltb, ◌||◌, not,
}
use libpmemobj_cpp.Common.Effect.{Action}
use libpmemobj_cpp.Math.PowerOfTwo.{next_pow_2_lem}
use libpmemobj_cpp.Vector.{Block, Vector, Env, transaction}
use libpmemobj_cpp.Vector.Private.{
  get_recommended_capacity, add_data_to_tx, construct_at_end, detach, realloc, left_behind,
  moved_count,
}
use libpmemobj_cpp.Vector.Cells.{read_all}
use libpmemobj_cpp.Vector.Insert.{internal_insert, insert_range, construct_or_assign}
use libpmemobj_cpp.Vector.Modify.{erase, shrink_to_fit}
use libpmemobj_cpp.Vector.Content.{
  NoFailure, add_data_to_tx-OnlyAdds, alloc_lem, guarded-OnlyAdds, realloc_from-present,
  realloc-realloc_from,
}

module _ {A : Type 0} (env : Env A) (safe : NoFailure env) (v : Vector A)
    (present : v.has_data ≡ true) where
  internal_insert-in_place_present :
      (idx count : ℕ) (sources : Block A → List (Option A))
      → v.size + count ≤ v.capacity
      → (internal_insert env idx count sources v).1.has_data ≡ true
  unfolding internal_insert construct_or_assign
  internal_insert-in_place_present idx count sources fits =
      let (log, e) = add_data_to_tx-OnlyAdds env safe idx (v.size - idx + count) v in
      ground (arith, e, present)

  internal_insert-realloc_present :
      (idx count : ℕ) (sources : Block A → List (Option A))
      → v.capacity < v.size + count
      → 0 < get_recommended_capacity (v.size + count)
      → get_recommended_capacity (v.size + count) ≤ env.max_size
      → (internal_insert env idx count sources v).1.has_data ≡ true
  unfolding internal_insert construct_at_end
  internal_insert-realloc_present idx count sources full some_room allowed =
      let (log, e) = add_data_to_tx-OnlyAdds env safe 0 v.size v in
      let detached = (detach env (record v { added = log })).1 in
      let made =
        alloc_lem env safe (get_recommended_capacity (v.size + count)) detached some_room allowed in
      ground (arith, e, made, safe.1)

  realloc_present : (n : ℕ) → 0 < n → n ≤ env.max_size → (realloc env n v).1.has_data ≡ true
  unfolding construct_at_end
  realloc_present n some_room allowed =
      let (log, e) = add_data_to_tx-OnlyAdds env safe 0 v.size v in
      let detached = (detach env (record v { added = log })).1 in
      let made = alloc_lem env safe n detached some_room allowed in
      let w : Vector A = record detached { capacity = n; has_data = true; block = λ _. none } in
      let moved = read_all 0 (moved_count env n v) v.block in
      let run =
        realloc-realloc_from env safe n v (construct_at_end env moved w).1 (left_behind env n v)
          (realloc_from-present env safe n v w log present e made) in
      ap (λ o. o.1.has_data) run

module _ {A : Type 0} (env : Env A) (v : Vector A) (xs : List A) (idx : ℕ) (safe : NoFailure env)
    (present : v.has_data ≡ true) where
  transaction_present :
      (tx : Action (Vector A) (Unit {0}))
      → (tx (record v { added = [] })).1.has_data ≡ true
      → (transaction tx v).1.has_data ≡ true
  transaction_present tx h = ground (arith, h, present)

  pub insert_range_present :
      0 < length xs
      → get_recommended_capacity (v.size + length xs) ≤ env.max_size
      → v.size + length xs ≤ 2 ^ 63
      → (insert_range env idx xs v).1.has_data ≡ true
  unfolding insert_range get_recommended_capacity
  insert_range_present some_source allowed bound =
      let (m, e, low, high) = next_pow_2_lem (v.size + length xs) (omega arith) bound in
      let start : Vector A = record v { added = [] } in
      transaction_present (internal_insert env idx (length xs) (λ _. map some xs))
        (elim (dec_le (v.size + length xs) v.capacity) [
          | yes fits ↦
              internal_insert-in_place_present env safe start present idx (length xs)
                (λ _. map some xs) fits
          | no full ↦
              internal_insert-realloc_present env safe start present idx (length xs)
                (λ _. map some xs) (omega arith) (rw e (omega arith)) allowed
        ])

  pub erase_present : (count : ℕ) → (erase env idx count v).1.has_data ≡ true
  unfolding erase
  erase_present count =
      let start : Vector A = record v { added = [] } in
      let guard = not env.trivially_destructible || ltb (idx + count) v.size in
      let adds = add_data_to_tx env idx (v.size - idx) in
      let (log, run) =
        guarded-OnlyAdds guard adds start
          (add_data_to_tx-OnlyAdds env safe idx (v.size - idx) start) in
      ground (arith, run, present)

pub shrink_to_fit_present :
    {A : Type 0} (env : Env A) (v : Vector A)
    → NoFailure env
    → v.has_data ≡ true
    → 0 < v.size
    → v.size ≤ env.max_size
    → (shrink_to_fit env v).1.has_data ≡ true
unfolding shrink_to_fit
shrink_to_fit_present {A} env v safe present some_elements allowed =
    let start : Vector A = record v { added = [] } in
    let kept = realloc_present env safe start present v.size some_elements allowed in
    elim (Bool-cases (v.capacity == v.size)) [
      | inl fits ↦ ground (arith, fits, present)
      | inr larger ↦ ground (arith, larger, kept, present)
    ]
