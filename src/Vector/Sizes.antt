-- ===== src/Vector/Sizes.antt =====
-- What removing elements and changing the size or the capacity does to the contents of a vector.
use native.Mathlib.Decide.{dec_le, dec_lt}
use libpmemobj_cpp.Common.{
  ℕ, ◌+◌, ◌-◌, ◌≤◌, ◌<◌, ◌≡◌, refl, subst, ◌∙◌, sym, ap, none, some, List, [], ◌∷◌, ◌++◌, length,
  arith, ltb, length-append, ◌||◌, not, ◌≢◌,
}
use libpmemobj_cpp.Common.Effect.{
  Exn, ok, throws, transaction_alloc_error, transaction_out_of_memory, length_error,
}
use libpmemobj_cpp.Snapshot.{error_of}
use libpmemobj_cpp.Vector.{Block, Vector, Env}
use libpmemobj_cpp.Vector.Cells.{At, At-Agree, At-append, At-front}
use libpmemobj_cpp.Vector.Private.{
  get_recommended_capacity, add_range, add_data_to_tx, alloc, detach,
}
use libpmemobj_cpp.Vector.Insert.{internal_insert, insert_range}
use libpmemobj_cpp.Vector.Modify.{reserve, shrink_to_fit, move_elements, erase}
use libpmemobj_cpp.Vector.Content.{
  Holds, Leaves, run-Leaves, Allocated, realloc-Holds, NoFailure, guarded-OnlyAdds,
  add_data_to_tx-OnlyAdds,
}
use libpmemobj_cpp.Vector.Moves.{move_elements-below, move_elements-At}

append_nil : {A : Type 0} (xs : List A) → xs ++ [] ≡ xs
append_nil [] = refl
append_nil (x ∷ xs) = ap (λ l. x ∷ l) (append_nil xs)

module _ {A : Type 0} (env : Env A) (safe : NoFailure env) where
  -- The moves of `erase` close the gap.
  closed_gap :
      (c : Block A) (ps ms ss : List A)
      → 0 < length ms
      → At c 0 (ps ++ ms ++ ss)
      → At (move_elements env (length ps + length ms) (length ps) (length ss) c) 0 (ps ++ ss)
  closed_gap c ps ms ss some_erased h =
      let s = length ps + length ms in
      let c' = move_elements env s (length ps) (length ss) c in
      let (front, back) = At-front c (ps ++ ms) ss h in
      let (kept, erased) = At-front c ps ms front in
      At-append c' 0 ps ss
        (At-Agree c c' 0 ps
          (λ j p q.
            move_elements-below env s (length ps) (length ss) c j (omega arith) (omega arith))
          kept)
        (subst (λ k. At c' k ss) (omega arith)
          (move_elements-At env s (length ps) c ss (omega arith)
            (subst (λ k. At c k ss) (omega (arith, length-append ps ms)) back)))

  erase_within :
      (v : Vector A) (ps ms ss : List A)
      → Holds v (ps ++ ms ++ ss)
      → v.size ≤ v.capacity
      → 0 < length ms
      → Leaves (erase env (length ps) (length ms) v) (ps ++ ss)
  unfolding erase
  erase_within v ps ms ss h room some_erased =
      let start : Vector A = record v { added = [] } in
      let s = length ps + length ms in
      let (log, e) = add_data_to_tx-OnlyAdds env safe (length ps) (v.size - length ps) start in
      let tail : v.size - s ≡ length ss =
        omega (arith, h.0, length-append (ps ++ ms) ss, length-append ps ms) in
      let total : v.size - length ms ≡ length (ps ++ ss) =
        omega (arith, h.0, length-append (ps ++ ms) ss, length-append ps ms, length-append ps ss) in
      let c = move_elements env s (length ps) (v.size - s) v.block in
      let content : At c 0 (ps ++ ss) = rw tail (closed_gap v.block ps ms ss some_erased h.1) in
      let guard = not env.trivially_destructible || ltb s v.size in
      let adds = add_data_to_tx env (length ps) (v.size - length ps) in
      let (log', run) = guarded-OnlyAdds guard adds start (log, e) in
      run-Leaves (erase env (length ps) (length ms) v)
        (record v { block = c; size = v.size - length ms; added = log' }) (ps ++ ss)
        (ground (arith, run)) (total, content) (omega arith)

-- `erase(first, last)` on a range inside the vector, when no call of libpmemobj fails: it returns,
-- and the vector has the elements before and behind the range, in their order.
pub erase_contents :
    {A : Type 0} (env : Env A) (v : Vector A) (ps ms ss : List A)
    → NoFailure env
    → Holds v (ps ++ ms ++ ss)
    → v.size ≤ v.capacity
    → Leaves (erase env (length ps) (length ms) v) (ps ++ ss)
unfolding erase
erase_contents env v ps [] ss safe h room =
    run-Leaves (erase env (length ps) 0 v) v (ps ++ ss) (ground arith)
      (
        h.0 ∙ ap (λ l. length (l ++ ss)) (append_nil ps),
        subst (λ l. At v.block 0 (l ++ ss)) (append_nil ps) h.1,
      )
      room
erase_contents env v ps (m ∷ ms) ss safe h room =
    erase_within env safe v ps (m ∷ ms) ss h room (omega arith)

-- `reserve(n)`, when no call of libpmemobj fails and n is allowed: it returns with the elements
-- kept, the capacity is at least n, and it does not fall.
pub reserve_contents :
    {A : Type 0} (env : Env A) (v : Vector A) (xs : List A) (n : ℕ)
    → NoFailure env
    → Holds v xs
    → Allocated v
    → v.size ≤ v.capacity
    → n ≤ env.max_size
    → Leaves (reserve env n v) xs
      × (n ≤ (reserve env n v).1.capacity)
      × (v.capacity ≤ (reserve env n v).1.capacity)
unfolding reserve
reserve_contents env v xs n safe h known room allowed = elim (dec_le n v.capacity) [
  | yes p ↦
      let run : reserve env n v ≡ (ok tt, v) = ground arith in
      subst (λ o. Leaves o xs × (n ≤ o.1.capacity) × (v.capacity ≤ o.1.capacity)) (sym run)
        ((refl, h, room), p, omega arith)
  | no p ↦
      let (w, made, held, cap) =
        realloc-Holds env safe n (record v { added = [] }) xs h known (omega (arith, h.0))
          allowed in
      let run : reserve env n v ≡ (ok tt, w) = ground (arith, made) in
      subst (λ o. Leaves o xs × (n ≤ o.1.capacity) × (v.capacity ≤ o.1.capacity)) (sym run)
        ((refl, held, omega (arith, held.0, h.0, cap)), omega (arith, cap), omega (arith, cap))
]

shrink_to_fit_changes :
    {A : Type 0} (env : Env A) (v : Vector A) (xs : List A)
    → NoFailure env
    → Holds v xs
    → Allocated v
    → v.size ≤ env.max_size
    → v.capacity ≢ v.size
    → Leaves (shrink_to_fit env v) xs × ((shrink_to_fit env v).1.capacity ≡ v.size)
unfolding shrink_to_fit
shrink_to_fit_changes env v xs safe h known allowed differs =
    let (w, made, held, cap) =
      realloc-Holds env safe v.size (record v { added = [] }) xs h known (omega (arith, h.0))
        allowed in
    let run : shrink_to_fit env v ≡ (ok tt, w) = ground (arith, made) in
    subst (λ o. Leaves o xs × (o.1.capacity ≡ v.size)) (sym run)
      ((refl, held, omega (arith, held.0, h.0, cap)), cap)

shrink_to_fit_fits :
    {A : Type 0} (env : Env A) (v : Vector A) (xs : List A)
    → NoFailure env
    → Holds v xs
    → Allocated v
    → v.size ≤ env.max_size
    → v.size ≤ v.capacity
    → Leaves (shrink_to_fit env v) xs × ((shrink_to_fit env v).1.capacity ≡ v.size)
unfolding shrink_to_fit
shrink_to_fit_fits env v xs safe h known allowed room = elim (dec_lt v.size v.capacity) [
  | yes p ↦ shrink_to_fit_changes env v xs safe h known allowed (omega arith)
  | no p ↦
      let run : shrink_to_fit env v ≡ (ok tt, v) = ground arith in
      subst (λ o. Leaves o xs × (o.1.capacity ≡ v.size)) (sym run) ((refl, h, room), omega arith)
]

-- `shrink_to_fit()`, when no call of libpmemobj fails and the size is allowed: it returns with the
-- elements kept, and the capacity is the size.
pub shrink_to_fit_contents :
    {A : Type 0} (env : Env A) (v : Vector A) (xs : List A)
    → NoFailure env
    → Holds v xs
    → Allocated v
    → v.size ≤ env.max_size
    → Leaves (shrink_to_fit env v) xs × ((shrink_to_fit env v).1.capacity ≡ v.size)
unfolding shrink_to_fit
shrink_to_fit_contents env v xs safe h known allowed = elim (dec_lt v.capacity v.size) [
  | yes p ↦ shrink_to_fit_changes env v xs safe h known allowed (omega arith)
  | no p ↦ shrink_to_fit_fits env v xs safe h known allowed (omega arith)
]

insert_range-realloc :
    {A : Type 0} (env : Env A) (v : Vector A) (idx : ℕ) (xs : List A) (x : Exn)
    → ((r : _) → env.xadd r ≡ none)
    → v.capacity < v.size + length xs
    → ((u : Vector A) → (alloc env (get_recommended_capacity (v.size + length xs)) u).0 ≡ throws x)
    → (insert_range env idx xs v).0 ≡ throws x
unfolding insert_range internal_insert add_data_to_tx add_range
insert_range-realloc env v idx xs x adds full fails =
    let env' = record env { tx_alloc = λ _. none; tx_free = none } in
    let start : Vector _ = record v { added = [] } in
    let (log, e) = add_data_to_tx-OnlyAdds env' ((λ n. refl), refl, adds) 0 v.size start in
    let e' : add_data_to_tx env 0 v.size start ≡ (ok tt, record start { added = log }) = e in
    ground (arith, e', fails (detach env (record v { added = log })).1)

-- `insert(pos, first, last)` that needs a new block, when no snapshot fails and the recommended
-- capacity has not wrapped to 0: it throws length_error if that capacity is above max_size(); and if
-- it is not, and the allocation fails, it throws transaction_out_of_memory for ENOMEM (12) and
-- transaction_alloc_error for any other errno.
pub insert_range_failures :
    {A : Type 0} (env : Env A) (v : Vector A) (idx : ℕ) (xs : List A)
    → ((r : _) → env.xadd r ≡ none)
    → v.capacity < v.size + length xs
    → 0 < get_recommended_capacity (v.size + length xs)
    → (env.max_size < get_recommended_capacity (v.size + length xs)
        → (insert_range env idx xs v).0 ≡ throws length_error)
      × ((errno : ℕ)
          → get_recommended_capacity (v.size + length xs) ≤ env.max_size
          → env.tx_alloc (get_recommended_capacity (v.size + length xs)) ≡ some errno
          → ((errno ≡ 12 → (insert_range env idx xs v).0 ≡ throws transaction_out_of_memory)
              × (errno ≢ 12 → (insert_range env idx xs v).0 ≡ throws transaction_alloc_error)))
unfolding alloc error_of
insert_range_failures env v idx xs adds full some_capacity = (
  λ large. insert_range-realloc env v idx xs length_error adds full (λ u. ground (arith, large)),
  λ errno allowed fails. (
    λ e.
        insert_range-realloc env v idx xs transaction_out_of_memory adds full
          (λ u. ground (arith, allowed, fails, some_capacity, e)),
    λ e.
        insert_range-realloc env v idx xs transaction_alloc_error adds full
          (λ u. ground (arith, allowed, fails, some_capacity, e)),
  ),
)
