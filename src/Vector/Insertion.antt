-- ===== src/Vector/Insertion.antt =====
-- What inserting does to the contents of a vector.
use native.Mathlib.Decide.{dec_le}
use libpmemobj_cpp.Common.{
  if◌then◌else◌, ltb, true, false, ℕ, ◌+◌, ◌^◌, ◌-◌, ◌≤◌, ◌<◌, ◌≡◌, refl, subst, ◌∙◌, sym, ap,
  Option, none, some, List, [], ◌∷◌, ◌++◌, map, length, arith, ◌⊎◌, inl, inr, length-append,
  length-map,
}
use libpmemobj_cpp.Common.Effect.{ok}
use libpmemobj_cpp.Math.PowerOfTwo.{next_pow_2_lem}
use libpmemobj_cpp.Vector.{Block, Vector, Env}
use libpmemobj_cpp.Vector.Cells.{
  create_all, read_all, At, At-Agree, At-append, At-front, create_all-outside, create_all-extends,
  read_all-At,
}
use libpmemobj_cpp.Vector.Private.{
  get_recommended_capacity, construct_at_end, left_behind, free, detach,
}
use libpmemobj_cpp.Vector.Insert.{
  Ref, outside, inside, deref, move_elements_backward, construct_or_assign, moved_below,
  internal_insert, insert_range, emplace, emplace_back,
}
use libpmemobj_cpp.Vector.Content.{
  Holds, Leaves, run-Leaves, transaction-Leaves, Allocated, realloc_from-Holds,
  construct_at_end-Holds, NoFailure, add_data_to_tx-OnlyAdds, alloc-size,
}
use libpmemobj_cpp.Vector.Moves.{move_elements_backward-below, move_elements_backward-to, At-shift}

module _ {A : Type 0} (env : Env A) (safe : NoFailure env) where
  -- The gap that `move_elements_backward` leaves, filled.
  filled_gap :
      (c : Block A) (ps xs ss : List A)
      → 0 < length xs
      → At c 0 (ps ++ ss)
      → At
          (create_all
            (length ps)
            (map some xs)
            (move_elements_backward env (length ps) (length ps + length xs) (length ss) c))
          0
          (ps ++ xs ++ ss)
  filled_gap c ps xs ss some_source h =
      let idx = length ps in
      let moved = move_elements_backward env idx (idx + length xs) (length ss) c in
      let filled = create_all idx (map some xs) moved in
      let (hp, hs) = At-front c ps ss h in
      let len : length (map some xs) ≡ length xs = length-map xs (λ x. some x) in
      let front : At filled 0 (ps ++ xs) = create_all-extends moved 0 idx ps xs (omega arith) (
        At-Agree c moved 0 ps
          (λ j p q.
            move_elements_backward-below env idx (idx + length xs) (length ss) c j (omega arith)
              (omega arith))
          hp) in
      let back : At filled (idx + length xs) ss =
        At-shift env c filled idx (idx + length xs) ss
          (λ k p.
            create_all-outside idx (map some xs) moved (idx + length xs + k)
              (inr (omega (arith, len)))
            ∙ move_elements_backward-to env idx (idx + length xs) (length ss) c k (omega arith) p)
          hs in
      At-append filled 0 (ps ++ xs) ss front
        (subst (λ k. At filled k ss) (omega (arith, length-append ps xs)) back)

  module _ (v : Vector A) (ps xs ss : List A) (h : Holds v (ps ++ ss))
      (sources : Block A → List (Option A)) (same : (c : Block A) → sources c ≡ map some xs) where
    internal_insert-in_place :
        0 < length xs
        → v.size + length xs ≤ v.capacity
        → Leaves (internal_insert env (length ps) (length xs) sources v) (ps ++ xs ++ ss)
    unfolding internal_insert construct_or_assign
    internal_insert-in_place some_source fits =
        let idx = length ps in
        let n = length xs in
        let tail : v.size - idx ≡ length ss = omega (arith, length-append ps ss, h.0) in
        let len : length (map some xs) ≡ n = length-map xs (λ x. some x) in
        let (log, e) = add_data_to_tx-OnlyAdds env safe idx (v.size - idx + n) v in
        let moved = move_elements_backward env idx (idx + n) (v.size - idx) v.block in
        let filled = create_all idx (map some xs) moved in
        let w : Vector A = record v {
          added = log;
          block = filled;
          size = v.size + length (map some xs);
        } in
        let total : v.size + length (map some xs) ≡ length (ps ++ xs ++ ss) = omega (
          arith,
          len,
          length-append (ps ++ xs) ss,
          length-append ps xs,
          length-append ps ss,
          h.0,
        ) in
        let within : v.size + length (map some xs) ≤ v.capacity = omega (arith, len) in
        run-Leaves (internal_insert env idx n sources v) w (ps ++ xs ++ ss)
          (ground (arith, e, same moved))
          (
            total,
            subst
                (λ m.
                  At
                    (create_all idx (map some xs)
                      (move_elements_backward env idx (idx + n) m v.block))
                    0 (ps ++ xs ++ ss))
                (sym tail) (filled_gap v.block ps xs ss some_source h.1),
          )
          within

    internal_insert-realloc :
        v.capacity < v.size + length xs
        → get_recommended_capacity (v.size + length xs) ≤ env.max_size
        → v.size + length xs ≤ get_recommended_capacity (v.size + length xs)
        → Leaves (internal_insert env (length ps) (length xs) sources v) (ps ++ xs ++ ss)
    unfolding internal_insert construct_at_end
    internal_insert-realloc full allowed enough =
        let idx = length ps in
        let n = length xs in
        let tail : v.size - idx ≡ length ss = omega (arith, length-append ps ss, h.0) in
        let (hp, hs) = At-front v.block ps ss h.1 in
        let before : read_all 0 idx v.block ≡ map some ps = read_all-At v.block 0 ps hp in
        let after : read_all idx (v.size - idx) v.block ≡ map some ss =
          rw tail (read_all-At v.block idx ss hs) in
        let (log, e) = add_data_to_tx-OnlyAdds env safe 0 v.size v in
        let detached = (detach env (record v { added = log })).1 in
        let (w0, made, empty, cap, kept) =
          alloc-size env safe (get_recommended_capacity (v.size + n)) detached allowed in
        let w1 = (construct_at_end env (map some ps) w0).1 in
        let w2 = (construct_at_end env (map some xs) w1).1 in
        let w3 = (construct_at_end env (map some ss) w2).1 in
        let held : Holds w3 ((ps ++ xs) ++ ss) =
          construct_at_end-Holds env w2 (ps ++ xs) ss (
            construct_at_end-Holds env w1 ps xs
              (construct_at_end-Holds env w0 [] ps (empty, tt))) in
        let total : w3.size ≡ v.size + n = omega (
          arith,
          held.0,
          h.0,
          length-append (ps ++ xs) ss,
          length-append ps xs,
          length-append ps ss,
        ) in
        let within : w3.size ≤ w3.capacity = omega (arith, total, cap) in
        run-Leaves (internal_insert env idx n sources v) w3 (ps ++ xs ++ ss)
          (ground (arith, e, made, before, after, same (moved_below env idx v.block), safe.1)) held
          within

    internal_insert-Leaves :
        0 < length xs
        → get_recommended_capacity (v.size + length xs) ≤ env.max_size
        → v.size + length xs ≤ 2 ^ 63
        → Leaves (internal_insert env (length ps) (length xs) sources v) (ps ++ xs ++ ss)
    unfolding get_recommended_capacity
    internal_insert-Leaves some_source allowed bound =
        let (m, e, low, high) = next_pow_2_lem (v.size + length xs) (omega arith) bound in
        elim (dec_le (v.size + length xs) v.capacity) [
          | yes fits ↦ internal_insert-in_place some_source fits
          | no full ↦ internal_insert-realloc (omega arith) allowed (rw e low)
        ]

-- `insert(pos, first, last)`, when no call of libpmemobj fails, the range is not empty, and the new
-- size is at most 2^63 and its recommended capacity allowed: it returns, and the vector has the old
-- elements before the position, the range, and the old elements behind it, within its capacity.
pub insert_range_contents :
    {A : Type 0} (env : Env A) (v : Vector A) (ps xs ss : List A)
    → NoFailure env
    → Holds v (ps ++ ss)
    → 0 < length xs
    → get_recommended_capacity (v.size + length xs) ≤ env.max_size
    → v.size + length xs ≤ 2 ^ 63
    → Leaves (insert_range env (length ps) xs v) (ps ++ xs ++ ss)
unfolding insert_range
insert_range_contents env v ps xs ss safe h some_source allowed bound =
    transaction-Leaves (internal_insert env (length ps) (length xs) (λ _. map some xs)) v
      (ps ++ xs ++ ss)
      (internal_insert-Leaves env safe (record v { added = [] }) ps xs ss h (λ _. map some xs)
        (λ _. refl) some_source allowed bound)

-- `emplace(pos, value)`, under the same conditions: it inserts the value that `value` had before
-- the call, whether that is an object outside the vector or one of its own elements.
pub emplace_contents :
    {A : Type 0} (env : Env A) (v : Vector A) (ps ss : List A) (value : Ref A) (x : A)
    → NoFailure env
    → Holds v (ps ++ ss)
    → deref v.block value ≡ some x
    → get_recommended_capacity (v.size + 1) ≤ env.max_size
    → v.size + 1 ≤ 2 ^ 63
    → Leaves (emplace env (length ps) value v) (ps ++ (x ∷ []) ++ ss)
unfolding emplace
emplace_contents env v ps ss value x safe h is_x allowed bound =
    transaction-Leaves (internal_insert env (length ps) 1 (λ _. deref v.block value ∷ [])) v
      (ps ++ (x ∷ []) ++ ss)
      (internal_insert-Leaves env safe (record v { added = [] }) ps (x ∷ []) ss h
        (λ _. deref v.block value ∷ []) (λ _. ap (λ o. o ∷ []) is_x) (omega arith) allowed bound)

module _ {A : Type 0} (env : Env A) (v : Vector A) (xs : List A) (value : Ref A) (x : A)
    (safe : NoFailure env) (h : Holds v xs) (is_x : deref v.block value ≡ some x) where
  emplace_back-room : v.size < v.capacity → Leaves (emplace_back env value v) (xs ++ x ∷ [])
  unfolding emplace_back construct_at_end
  emplace_back-room room =
      let start : Vector A = record v { added = [] } in
      let (log, e) = add_data_to_tx-OnlyAdds env safe v.size 1 start in
      let w = (construct_at_end env (map some (x ∷ [])) (record v { added = log })).1 in
      let held : Holds w (xs ++ x ∷ []) =
        construct_at_end-Holds env (record v { added = log }) xs (x ∷ []) h in
      run-Leaves (emplace_back env value v) w (xs ++ x ∷ []) (ground (arith, e, is_x)) held
        (omega arith)

  emplace_back-full :
      Allocated v
      → v.size ≡ v.capacity
      → value ≡ outside x
      → get_recommended_capacity (v.size + 1) ≤ env.max_size
      → v.size + 1 ≤ get_recommended_capacity (v.size + 1)
      → Leaves (emplace_back env value v) (xs ++ x ∷ [])
  unfolding emplace_back construct_at_end
  emplace_back-full known full is_outside allowed enough =
      let (u, made, held, cap) =
        realloc_from-Holds env safe (get_recommended_capacity (v.size + 1))
          (record v { added = [] }) xs h known (omega (arith, h.0)) allowed in
      let w = (construct_at_end env (map some (x ∷ [])) u).1 in
      let held' : Holds w (xs ++ x ∷ []) = construct_at_end-Holds env u xs (x ∷ []) held in
      let within : u.size + 1 ≤ u.capacity = omega (arith, held.0, h.0, cap) in
      run-Leaves (emplace_back env value v) w (xs ++ x ∷ [])
        (ground (arith, made, is_outside, full)) held' within

-- `emplace_back(value)` and `push_back(value)`, when no call of libpmemobj fails, the vector is
-- allocated as its size says, and the recommended capacity is allowed: the value is appended,
-- unless it is an element of a full vector.
pub emplace_back_contents :
    {A : Type 0} (env : Env A) (v : Vector A) (xs : List A) (value : Ref A) (x : A)
    → NoFailure env
    → Holds v xs
    → Allocated v
    → v.size ≤ v.capacity
    → deref v.block value ≡ some x
    → (v.size < v.capacity) ⊎ (value ≡ outside x)
    → get_recommended_capacity (v.size + 1) ≤ env.max_size
    → v.size + 1 ≤ 2 ^ 63
    → Leaves (emplace_back env value v) (xs ++ x ∷ [])
unfolding get_recommended_capacity
emplace_back_contents env v xs value x safe h known room is_x safe_value allowed bound =
    let (m, e, low, high) = next_pow_2_lem (v.size + 1) (omega arith) bound in
    elim (dec_le (v.size + 1) v.capacity) [
      | yes fits ↦ emplace_back-room env v xs value x safe h is_x (omega arith)
      | no full ↦ elim safe_value [
        | inl free ↦ absurd (omega arith)
        | inr p ↦
            emplace_back-full env v xs value x safe h is_x known (omega arith) p allowed (rw e low)
      ]
    ]

-- `push_back` of an element of a full vector, when no call of libpmemobj fails, the vector is
-- allocated as its size says, the new size is at most 2^63 and the recommended capacity is allowed:
-- it returns with one element more, but that was built from an element that had been moved from and
-- destroyed. If the type is trivially destructible, it is what the move left there; otherwise it is
-- built from no object at all.
pub emplace_back_of_own_element :
    {A : Type 0} (env : Env A) (v : Vector A) (xs : List A) (k : ℕ) (x : A)
    → NoFailure env
    → Holds v xs
    → Allocated v
    → v.size ≡ v.capacity
    → k < v.size
    → v.block k ≡ some x
    → get_recommended_capacity (v.size + 1) ≤ env.max_size
    → v.size + 1 ≤ 2 ^ 63
    → ((emplace_back env (inside k) v).0 ≡ ok tt)
      × ((emplace_back env (inside k) v).1.size ≡ v.size + 1)
      × ((emplace_back env (inside k) v).1.block v.size
          ≡ (if env.trivially_destructible then some (env.moved_from x) else none))
unfolding emplace_back construct_at_end create_all get_recommended_capacity
emplace_back_of_own_element env v xs k x safe h known full p is_x allowed bound =
    let (m, e, low, high) = next_pow_2_lem (v.size + 1) (omega arith) bound in
    let (u, made, held, cap) =
      realloc_from-Holds env safe (get_recommended_capacity (v.size + 1)) (record v { added = [] })
        xs h known (rw e (omega (arith, h.0))) allowed in
    let read_back : left_behind env (get_recommended_capacity (v.size + 1))
          (record v { added = [] }) k
        ≡ (if env.trivially_destructible then some (env.moved_from x) else none) =
      let more : ltb (get_recommended_capacity (v.size + 1)) v.size ≡ false =
        rw e (ground (arith, low)) in
      let at : ltb k v.size ≡ true = ground (arith, p) in rw (more, at, is_x) refl in
    ground (arith, made, full, held.0, h.0, read_back)
