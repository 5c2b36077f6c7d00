-- ===== src/Vector/Modify.antt =====
-- The other public functions of `vector`: assignment, access, capacity, removal and the size.
use libpmemobj_cpp.Common.{
  ℕ, zero, suc, ◌+◌, ◌-◌, ◌==◌, ltb, leb, if◌then◌else◌, true, ◌||◌, not, Option, none, some, List,
  map, length, replicate, take, drop,
}
use libpmemobj_cpp.Common.Effect.{out_of_range, ok, throws, Action, pass, ◌>>=◌, ◌>>◌, modify, read}
use libpmemobj_cpp.Vector.{Block, Vector, Env, transaction}
use libpmemobj_cpp.Vector.Cells.{create_all}
use libpmemobj_cpp.Vector.Private.{
  add_range, add_data_to_tx, alloc, construct_at_end, shrink, dealloc, realloc,
}
use libpmemobj_cpp.Vector.Insert.{Ref, deref, move_one}

module _ {A : Type 0} (env : Env A) where
  -- The body of both overloads of `assign`: in place the old elements are overwritten, with the
  -- first of the sources, and the rest is constructed. A source may be an element of the vector.
  unfoldable pub assign_all : List (Option A) → List (Option A) → Action (Vector A) (Unit {0})
  assign_all sources fresh v =
      let count = length sources in
      let grow = (do
        add_data_to_tx env v.size (count - v.size)
        construct_at_end env (drop v.size sources)) in
      if leb count v.capacity
      then (do
        add_data_to_tx env 0 v.size
        modify (λ w. record w { block = create_all 0 (take v.size sources) w.block })
        if ltb v.size count then grow else shrink env count)
          v
      else (do dealloc env; alloc env count; construct_at_end env fresh) v

  -- `assign(count, value)`; after `dealloc` an element of the vector is gone.
  unfoldable pub assign_fill : ℕ → Ref A → Action (Vector A) (Unit {0})
  unfolding assign_all
  assign_fill count value v =
      let destroyed : Block A = λ _. none in
      transaction
        (assign_all (replicate count (deref v.block value))
          (replicate count (deref destroyed value)))
        v

  -- `assign(first, last)`, with a range outside the vector
  unfoldable pub assign_range : List A → Action (Vector A) (Unit {0})
  unfolding assign_all
  assign_range xs = transaction (assign_all (map some xs) (map some xs))

  -- `at(n)`: the element is added to the transaction that the caller runs, before it is handed out.
  unfoldable pub at : ℕ → Action (Vector A) (Option A)
  unfolding add_range
  at n v =
      if leb v.size n
      then (throws out_of_range, v)
      else (do
        add_range env (record { first = n; count = 1; snapshot = true })
        read (λ w. w.block n))
          v

  -- `const_at(n)`
  unfoldable pub const_at : ℕ → Action (Vector A) (Option A)
  const_at n v = if leb v.size n then (throws out_of_range, v) else (ok (v.block n), v)

  unfoldable pub reserve : ℕ → Action (Vector A) (Unit {0})
  reserve capacity_new v =
      if leb capacity_new v.capacity then (ok tt, v) else transaction (realloc env capacity_new) v

  unfoldable pub shrink_to_fit : Action (Vector A) (Unit {0})
  shrink_to_fit v = if v.capacity == v.size then (ok tt, v) else transaction (realloc env v.size) v

  unfoldable pub clear : Action (Vector A) (Unit {0})
  clear = transaction (shrink env 0)

  unfoldable pub free_data : Action (Vector A) (Unit {0})
  free_data v = if v.has_data then transaction (dealloc env) v else (ok tt, v)

  -- `std::move(first, last, d_first)` for `n` elements, the first element first
  unfoldable pub move_elements : ℕ → ℕ → ℕ → Block A → Block A
  move_elements first dest zero c = c
  move_elements first dest (suc n) c =
      move_elements (first + 1) (dest + 1) n (move_one env.moved_from first dest c)

  -- `erase(first, last)`, which leaves the slots behind the new end as the move left them
  unfoldable pub erase : ℕ → ℕ → Action (Vector A) (Unit {0})
  unfolding move_elements
  erase idx count v =
      let adds = add_data_to_tx env idx (v.size - idx) in
      if count == 0
      then (ok tt, v)
      else transaction
          (do
            if not env.trivially_destructible || ltb (idx + count) v.size then adds else pass tt
            modify (λ w. record w {
              block = move_elements (idx + count) idx (w.size - (idx + count)) w.block;
              size = w.size - count;
            }))
          v

  unfoldable pub pop_back : Action (Vector A) (Unit {0})
  pop_back v = if v.size == 0 then (ok tt, v) else transaction (shrink env (v.size - 1)) v

  -- What both overloads of `resize` run in their transaction; the sources are made by `fill`.
  unfoldable pub resize_to : ℕ → (ℕ → Block A → List (Option A)) → Action (Vector A) (Unit {0})
  resize_to count fill v =
      let grown = construct_at_end env (fill (count - v.size) v.block) in
      let destroyed : Block A = λ _. none in
      if leb count v.size
      then shrink env count v
      else if ltb v.capacity count
      then (do
        realloc env count
        w ← read (λ w. w.size)
        construct_at_end env (fill (count - w) destroyed))
          v
      else grown v

  -- `resize(count)`, for elements that are value-initialized
  unfoldable pub resize : ℕ → A → Action (Vector A) (Unit {0})
  unfolding resize_to
  resize count default = transaction (resize_to count (λ n _. replicate n (some default)))

  -- `resize(count, value)`
  unfoldable pub resize_fill : ℕ → Ref A → Action (Vector A) (Unit {0})
  unfolding resize_to
  resize_fill count value v =
      if v.capacity == count
      then (ok tt, v)
      else transaction (resize_to count (λ n c. replicate n (deref c value))) v
