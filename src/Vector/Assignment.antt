-- ===== src/Vector/Assignment.antt =====
-- What an assignment that fits the capacity leaves in a vector.
use native.Mathlib.Decide.{dec_lt}
use libpmemobj_cpp.Common.{
  ℕ, zero, suc, ◌-◌, ◌≤◌, ◌<◌, ◌≡◌, refl, subst, ap, Bool, true, false, if◌then◌else◌, inl, some,
  List, [], ◌∷◌, ◌++◌, map, length, take, drop, arith, length-map, length-take, take-append-drop,
}
use libpmemobj_cpp.Common.Effect.{ok, Action, pass, ◌>>◌}
use libpmemobj_cpp.Vector.{Block, Vector, Env}
use libpmemobj_cpp.Vector.Cells.{
  create_all, destroy_all, At, At-Agree, create_all-extends, destroy_all-outside,
}
use libpmemobj_cpp.Vector.Private.{add_data_to_tx, construct_at_end, shrink}
use libpmemobj_cpp.Vector.Insert.{outside, emplace_back}
use libpmemobj_cpp.Vector.Modify.{assign_all, assign_range}
use libpmemobj_cpp.Vector.Content.{
  Holds, NoFailure, OnlyAdds, add_data_to_tx-OnlyAdds, construct_at_end-Holds,
}

take-map : {A B : Type 0} (f : A → B) (n : ℕ) (xs : List A) → take n (map f xs) ≡ map f (take n xs)
take-map f zero xs = refl
take-map f (suc n) [] = refl
take-map f (suc n) (x ∷ xs) = ap (λ l. f x ∷ l) (take-map f n xs)

drop-map : {A B : Type 0} (f : A → B) (n : ℕ) (xs : List A) → drop n (map f xs) ≡ map f (drop n xs)
drop-map f zero xs = refl
drop-map f (suc n) [] = refl
drop-map f (suc n) (x ∷ xs) = drop-map f n xs

take-all : {A : Type 0} (n : ℕ) (xs : List A) → length xs ≤ n → take n xs ≡ xs
take-all zero [] h = refl
take-all zero (x ∷ xs) h = absurd (omega arith)
take-all (suc n) [] h = refl
take-all (suc n) (x ∷ xs) h = ap (λ l. x ∷ l) (take-all n xs (omega arith))

-- What is left of a vector in which the elements were assigned in place.
pub record Assigned {A : Type 0} (v w : Vector A) (xs : List A) : Type 0 where
  pub held : Holds w xs
  pub same_capacity : w.capacity ≡ v.capacity
  pub same_data : w.has_data ≡ v.has_data

module _ {A : Type 0} (env : Env A) (safe : NoFailure env) where
  -- The first elements are overwritten by the sources.
  overwritten :
      (c : Block A) (n : ℕ) (xs : List A) → At (create_all 0 (take n (map some xs)) c) 0 (take n xs)
  overwritten c n xs =
      rw (take-map (λ x. some x) n xs) (create_all-extends c 0 0 [] (take n xs) refl tt)

  skipped-OnlyAdds :
      (skip : Bool) (m : Action (Vector A) (Unit {0})) (v : Vector A)
      → OnlyAdds m v
      → OnlyAdds (if skip then pass tt else m) v
  skipped-OnlyAdds true m v h = (v.added, refl)
  skipped-OnlyAdds false m v h = h

  pub shrink-Assigned :
      (v : Vector A) (xs : List A)
      → At v.block 0 xs
      → length xs ≤ v.size
      → (w : Vector A) × (shrink env (length xs) v ≡ (ok tt, w)) × Assigned v w xs
  unfolding shrink
  shrink-Assigned v xs h p =
      let n = length xs in
      let adds = add_data_to_tx env n (v.size - n) in
      let (log, e) =
        skipped-OnlyAdds env.trivially_destructible adds v
          (add_data_to_tx-OnlyAdds env safe n (v.size - n) v) in
      let block' = destroy_all n (v.size - n) v.block in
      let kept : At block' 0 xs =
        At-Agree v.block block' 0 xs
          (λ j a b. destroy_all-outside n (v.size - n) v.block j (inl (omega arith))) h in
      (
        record v { block = block'; size = n; added = log },
        ground (arith, e),
        record { held = (refl, kept); same_capacity = refl; same_data = refl },
      )

  grow-Assigned :
      (v : Vector A) (xs : List A)
      → At v.block 0 (take v.size xs)
      → v.size < length xs
      → (w : Vector A) × ((do
        add_data_to_tx env v.size (length xs - v.size)
        construct_at_end env (drop v.size (map some xs)))
            v
          ≡ (ok tt, w))
        × Assigned v w xs
  unfolding construct_at_end
  grow-Assigned v xs h p =
      let (log, e) = add_data_to_tx-OnlyAdds env safe v.size (length xs - v.size) v in
      let start : Vector A = record v { added = log } in
      let w = (construct_at_end env (map some (drop v.size xs)) start).1 in
      let held : Holds w (take v.size xs ++ drop v.size xs) =
        construct_at_end-Holds env start (take v.size xs) (drop v.size xs)
          (omega (arith, length-take v.size xs), h) in
      (
        w,
        rw drop-map (ground (arith, e)),
        record {
          held = subst (λ l. Holds w l) (take-append-drop v.size xs) held;
          same_capacity = refl;
          same_data = refl;
        },
      )

  assign_all-Assigned :
      (v : Vector A) (xs : List A)
      → length xs ≤ v.capacity
      → (w : Vector A) × (assign_all env (map some xs) (map some xs) v ≡ (ok tt, w))
        × Assigned v w xs
  unfolding assign_all
  assign_all-Assigned v xs fits =
      let len : length (map some xs) ≡ length xs = length-map xs (λ x. some x) in
      let (log, e) = add_data_to_tx-OnlyAdds env safe 0 v.size v in
      let u : Vector A = record v {
        added = log;
        block = create_all 0 (take v.size (map some xs)) v.block;
      } in
      let over = overwritten v.block v.size xs in
      elim (dec_lt v.size (length xs)) [
        | yes p ↦
            let (w, run, a) = grow-Assigned u xs over p in
            (
              w,
              ground (arith, e, run, len),
              record { held = a.held; same_capacity = a.same_capacity; same_data = a.same_data },
            )
        | no p ↦
            let (w, run, a) =
              shrink-Assigned u xs
                (subst (λ l. At u.block 0 l) (take-all v.size xs (omega arith)) over)
                (omega arith) in
            (
              w,
              ground (arith, e, run, len),
              record { held = a.held; same_capacity = a.same_capacity; same_data = a.same_data },
            )
      ]

  -- `assign(first, last)` of at most `capacity()` elements: the vector holds them and keeps its
  -- memory.
  pub assign_range-Assigned :
      (v : Vector A) (xs : List A)
      → length xs ≤ v.capacity
      → (w : Vector A) × (assign_range env xs v ≡ (ok tt, w)) × Assigned v w xs
  unfolding assign_range
  assign_range-Assigned v xs fits =
      let (w, run, a) = assign_all-Assigned (record v { added = [] }) xs fits in
      (
        w,
        ground (arith, run),
        record { held = a.held; same_capacity = a.same_capacity; same_data = a.same_data },
      )

  -- `push_back(x)` where there is room
  pub emplace_back-Assigned :
      (v : Vector A) (xs : List A) (x : A)
      → Holds v xs
      → v.size < v.capacity
      → (w : Vector A) × (emplace_back env (outside x) v ≡ (ok tt, w)) × Assigned v w (xs ++ x ∷ [])
  unfolding emplace_back construct_at_end
  emplace_back-Assigned v xs x h room =
      let (log, e) = add_data_to_tx-OnlyAdds env safe v.size 1 (record v { added = [] }) in
      let start : Vector A = record v { added = log } in
      let w = (construct_at_end env (map some (x ∷ [])) start).1 in
      (
        w,
        ground (arith, e),
        record {
          held = construct_at_end-Holds env start xs (x ∷ []) h;
          same_capacity = refl;
          same_data = refl;
        },
      )
