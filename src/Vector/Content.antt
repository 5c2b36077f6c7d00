-- ===== src/Vector/Content.antt =====
-- What a vector contains, and what the private functions do to it when libpmemobj does not fail.
use libpmemobj_cpp.Common.{
  if-true, if-false, ap, ◌∙◌, ℕ, zero, suc, ◌-◌, ◌≤◌, ◌<◌, ◌≡◌, refl, subst, sym, min,
  if◌then◌else◌, Bool, true, false, none, some, List, [], ◌∷◌, ◌++◌, map, length, arith,
  length-append, length-map, ◌⊎◌, inl, inr,
}
use native.Mathlib.Decide.{dec_lt, dec_le}
use libpmemobj_cpp.Common.Effect.{Result, ok, throws, Action, pass, ◌>>◌, run-then}
use libpmemobj_cpp.Snapshot.{Range, conditional_add_to_tx}
use libpmemobj_cpp.Vector.{Block, Vector, Env, transaction}
use libpmemobj_cpp.Vector.Cells.{read_all, At, read_all-At, create_all-extends}
use libpmemobj_cpp.Vector.Private.{
  add_range, add_data_to_tx, alloc, construct_at_end, detach, realloc, realloc_from, left_behind,
  free, moved_count,
}

-- The vector holds the elements `xs`.
abbrev pub Holds : {A : Type 0} → Vector A → List A → Type 0
Holds v xs = (v.size ≡ length xs) × At v.block 0 xs

-- A vector without memory has no elements.
abbrev pub Allocated : {A : Type 0} → Vector A → Type 0
Allocated v = (v.has_data ≡ true) ⊎ ((v.has_data ≡ false) × (v.size ≡ 0))

-- The call returned, and the vector holds the elements `xs` within its capacity.
abbrev pub Leaves : {A : Type 0} → Result (Unit {0}) × Vector A → List A → Type 0
Leaves out xs = (out.0 ≡ ok tt) × Holds out.1 xs × (out.1.size ≤ out.1.capacity)

pub run-Leaves :
    {A : Type 0} (out : Result (Unit {0}) × Vector A) (w : Vector A) (xs : List A)
    → out ≡ (ok tt, w)
    → Holds w xs
    → w.size ≤ w.capacity
    → Leaves out xs
run-Leaves out w xs e h p = subst (λ o. Leaves o xs) (sym e) (refl, h, p)

-- A function that returns has the same effect in its transaction.
pub transaction-Leaves :
    {A : Type 0} (tx : Action (Vector A) (Unit {0})) (v : Vector A) (xs : List A)
    → Leaves (tx (record v { added = [] })) xs
    → Leaves (transaction tx v) xs
transaction-Leaves tx v xs h =
    run-Leaves (transaction tx v) (tx (record v { added = [] })).1 xs (ground (arith, h.0)) h.1 h.2

-- Creating elements behind the end.
pub construct_at_end-Holds :
    {A : Type 0} (env : Env A) (v : Vector A) (xs ys : List A)
    → Holds v xs
    → Holds (construct_at_end env (map some ys) v).1 (xs ++ ys)
unfolding construct_at_end
construct_at_end-Holds env v xs ys h = (
  omega (arith, length-append xs ys, length-map ys (λ x. some x), h.0),
  create_all-extends v.block 0 v.size xs ys (omega (arith, h.0)) h.1,
)

-- No call of libpmemobj fails.
abbrev pub NoFailure : {A : Type 0} → Env A → Type 0
NoFailure env =
    ((n : ℕ) → env.tx_alloc n ≡ none) × (env.tx_free ≡ none) × ((r : Range) → env.xadd r ≡ none)

-- The action returns and does nothing but add to the transaction.
abbrev pub OnlyAdds : {A : Type 0} → Action (Vector A) (Unit {0}) → Vector A → Type 0
OnlyAdds m v = (log : List Range) × (m v ≡ (ok tt, record v { added = log }))

pub guarded-OnlyAdds :
    {A : Type 0} (guard : Bool) (m : Action (Vector A) (Unit {0})) (v : Vector A)
    → OnlyAdds m v
    → OnlyAdds (if guard then m else pass tt) v
guarded-OnlyAdds true m v h = h
guarded-OnlyAdds false m v h = (v.added, refl)

module _ {A : Type 0} (env : Env A) (safe : NoFailure env) where
  pub add_range-OnlyAdds : (r : Range) (v : Vector A) → OnlyAdds (add_range env r) v
  unfolding add_range conditional_add_to_tx
  add_range-OnlyAdds r v = elim (dec_le 1 r.count) [
    | no p ↦ (v.added, ground arith)
    | yes p ↦ (r ∷ v.added, ground (arith, safe.2 r))
  ]

  pub add_data_to_tx-OnlyAdds : (i n : ℕ) (v : Vector A) → OnlyAdds (add_data_to_tx env i n) v
  unfolding add_data_to_tx
  add_data_to_tx-OnlyAdds i n v =
      let initialized = v.size - i in
      let first : Range = record { first = i; count = min initialized n; snapshot = true } in
      let rest : Range = record { first = v.size; count = n - initialized; snapshot = false } in
      let (log, e) = add_range-OnlyAdds first v in
      let (log', e') = add_range-OnlyAdds rest (record v { added = log }) in
      elim (dec_lt initialized n) [
        | yes p ↦ (log', ground (arith, e, e'))
        | no p ↦ (log, ground (arith, e))
      ]

  -- Allocation of more than nothing, within `max_size()`.
  pub alloc_lem :
      (n : ℕ) (v : Vector A)
      → 0 < n
      → n ≤ env.max_size
      → alloc env n v ≡ (ok tt, record v { capacity = n; has_data = true; block = λ _. none })
  unfolding alloc
  alloc_lem n v p q = ground (arith, safe.0 n)

  -- The result of `alloc`, which leaves the elements to be constructed.
  pub alloc-size :
      (n : ℕ) (v : Vector A)
      → n ≤ env.max_size
      → (w : Vector A) × (alloc env n v ≡ (ok tt, w))
        × (w.size ≡ v.size)
        × (w.capacity ≡ n)
        × (w.added ≡ v.added)
  unfolding alloc
  alloc-size zero v q = (record v { capacity = 0 }, ground arith, refl, refl, refl)
  alloc-size (suc n) v q = (
    record v { capacity = suc n; has_data = true; block = λ _. none },
    ground (arith, safe.0 (suc n)),
    refl,
    refl,
    refl,
  )

  pub realloc_from-present :
      (n : ℕ) (v w : Vector A) (log : List Range)
      → v.has_data ≡ true
      → add_data_to_tx env 0 v.size v ≡ (ok tt, record v { added = log })
      → alloc env n (detach env (record v { added = log })).1 ≡ (ok tt, w)
      → realloc_from env n v ≡ (
        ok (left_behind env n v),
        (construct_at_end env (read_all 0 (moved_count env n v) v.block) w).1,
      )
  unfolding realloc_from construct_at_end
  realloc_from-present n v w log present e made =
      let rest : Action (Vector A) (Block A) = (do
        construct_at_end env (read_all 0 (moved_count env n v) v.block)
        free env
        pass (left_behind env n v)) in
      if-true _ _ present
      ∙ run-then (add_data_to_tx env 0 v.size) (do detach env; alloc env n; rest) e
      ∙ run-then (alloc env n) rest made
      ∙ rw safe.1 refl

  realloc_from-absent :
      (n : ℕ) (v w : Vector A)
      → v.has_data ≡ false
      → alloc env n v ≡ (ok tt, w)
      → realloc_from env n v ≡ (ok (left_behind env n v), w)
  unfolding realloc_from
  realloc_from-absent n v w absent made =
      if-false _ _ absent ∙ run-then (alloc env n) (pass (left_behind env n v)) made

  pub realloc-realloc_from :
      (n : ℕ) (v w : Vector A) (c : Block A)
      → realloc_from env n v ≡ (ok c, w)
      → realloc env n v ≡ (ok tt, w)
  unfolding realloc
  realloc-realloc_from n v w c made =
      ap (λ o. elim o.0 [ ok _ ↦ (ok tt, o.1) | throws x ↦ (throws x, o.1) ]) made

  -- A vector without memory, where `realloc` allocates
  pub realloc-absent :
      (n : ℕ) (v w : Vector A)
      → v.has_data ≡ false
      → alloc env n v ≡ (ok tt, w)
      → realloc env n v ≡ (ok tt, w)
  realloc-absent n v w absent made =
      realloc-realloc_from n v w (left_behind env n v) (realloc_from-absent n v w absent made)

  -- `realloc` to a capacity that the elements fit in
  pub realloc_from-Holds :
      (n : ℕ) (v : Vector A) (xs : List A)
      → Holds v xs
      → Allocated v
      → length xs ≤ n
      → n ≤ env.max_size
      → (w : Vector A) × (realloc_from env n v ≡ (ok (left_behind env n v), w))
        × Holds w xs
        × (w.capacity ≡ n)
  unfolding construct_at_end
  realloc_from-Holds n v xs h (inl present) room allowed =
      let (log, e) = add_data_to_tx-OnlyAdds 0 v.size v in
      let (w, made, empty, cap, kept) =
        alloc-size n (detach env (record v { added = log })).1 allowed in
      let old : read_all 0 v.size v.block ≡ map some xs = rw h.0 (read_all-At v.block 0 xs h.1) in
      let keep : moved_count env n v ≡ v.size = ground (arith, h.0) in
      let moved : read_all 0 (moved_count env n v) v.block ≡ map some xs =
        ap (λ k. read_all 0 k v.block) keep ∙ old in
      (
        (construct_at_end env (map some xs) w).1,
        realloc_from-present n v w log present e made
            ∙ ap (λ l. (ok (left_behind env n v), (construct_at_end env l w).1)) moved,
        construct_at_end-Holds env w [] xs (empty, tt),
        cap,
      )
  realloc_from-Holds n v [] h (inr (absent, none_held)) room allowed =
      let (w, made, same, cap, kept) = alloc-size n v allowed in
      (w, realloc_from-absent n v w absent made, (omega (arith, same, none_held), tt), cap)
  realloc_from-Holds n v (x ∷ xs) h (inr (absent, none_held)) room allowed =
      absurd (omega (arith, none_held, h.0))

  pub realloc-Holds :
      (n : ℕ) (v : Vector A) (xs : List A)
      → Holds v xs
      → Allocated v
      → length xs ≤ n
      → n ≤ env.max_size
      → (w : Vector A) × (realloc env n v ≡ (ok tt, w)) × Holds w xs × (w.capacity ≡ n)
  realloc-Holds n v xs h known room allowed =
      let (w, made, held, cap) = realloc_from-Holds n v xs h known room allowed in
      (w, realloc-realloc_from n v w (left_behind env n v) made, held, cap)
