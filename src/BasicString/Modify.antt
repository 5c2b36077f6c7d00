-- ===== src/BasicString/Modify.antt =====
-- The public functions of `basic_string` that change the string.
use libpmemobj_cpp.Common.{
  ℕ, ◌+◌, ◌-◌, min, ltb, leb, not, ◌&&◌, ◌||◌, if◌then◌else◌, true, false, some, map,
}
use libpmemobj_cpp.Common.Words.{add64, sub64}
use libpmemobj_cpp.Common.Effect.{
  Action, ok, throws, pass, out_of_range, length_error, ◌>>◌, modify,
}
use libpmemobj_cpp.Vector.{Env}
use libpmemobj_cpp.Vector.Cells.{write}
use libpmemobj_cpp.Vector.Insert.{outside}
use libpmemobj_cpp.Vector.Modify.{
  erase as vector_erase, reserve as vector_reserve, shrink_to_fit as vector_shrink_to_fit,
  resize_fill as vector_resize_fill,
}
use libpmemobj_cpp.BasicString.{
  BasicString, Source, fill, values, get_size, size, capacity, max_size, sso_capacity, on_large,
  transaction,
}
use libpmemobj_cpp.BasicString.Representation.{
  enable_sso, set_sso_size, empty_vector, traits_move, put, terminate, add_range, add_element,
  add_sso_to_tx, destroy_data, allocate, vector_insert, initialize, replace_content, sso_to_large,
  large_to_sso,
}

module _ (env : Env ℕ) where
  -- The constructors from a range and from a count and a character. They run in a transaction of
  -- the caller, on raw memory, in which they set the first word to 0.
  unfoldable pub construct : Source → Action BasicString (Unit {0})
  unfolding allocate initialize get_size
  construct source s =
      (do allocate env (get_size source); initialize env source)
        (record s { sso = false; non_sso = empty_vector })

  -- `assign(count, ch)`, `assign(s, count)` and `assign(first, last)`
  unfoldable pub assign : Source → Action BasicString (Unit {0})
  unfolding replace_content
  assign source = transaction (replace_content env source)

  -- What `erase` runs in a transaction while the string is short
  unfoldable pub erase_steps : ℕ → ℕ → Action BasicString (Unit {0})
  unfolding size add_range set_sso_size
  erase_steps index count s =
      let move_len = size s - index - count in
      let new_size = size s - count in
      let close_gap = (do
        add_range env (record { first = index; count = move_len + 1; snapshot = true })
        modify
            (λ t. record t { sso_data = traits_move index (index + count) move_len t.sso_data })) in
      (do
        if ltb 0 move_len then close_gap else pass tt
        add_element env (index + move_len)
        modify (terminate (index + move_len))
        modify (set_sso_size new_size))
        s

  -- `erase(index, count)`
  unfoldable pub erase : ℕ → ℕ → Action BasicString (Unit {0})
  unfolding size erase_steps
  erase index n s =
      let sz = size s in
      let count = min n (sz - index) in
      if ltb sz index
      then (throws out_of_range, s)
      else if s.sso
      then transaction (erase_steps index count) s
      else on_large (vector_erase env index count) s

  -- `pop_back()`: below zero `size() - 1` wraps.
  unfoldable pub pop_back : Action BasicString (Unit {0})
  unfolding erase
  pop_back s = erase (sub64 (size s) 1) 1 s

  -- `clear()`
  unfoldable pub clear : Action BasicString (Unit {0})
  unfolding erase
  clear s = erase 0 (size s) s

  -- What `append` runs in a transaction while the string is short
  unfoldable pub append_steps : ℕ → Source → ℕ → Action BasicString (Unit {0})
  unfolding get_size add_sso_to_tx sso_to_large set_sso_size
  append_steps sz source new_size s =
      if ltb sso_capacity new_size
      then (do sso_to_large env new_size; on_large (vector_insert env sz source)) s
      else (do
        add_sso_to_tx env sz (get_size source + 1)
        modify (put sz (map some (values source)))
        modify (set_sso_size new_size)
        modify (terminate new_size))
          s

  -- `append(count, ch)` and `append(first, last)`, to which the other overloads forward
  unfoldable pub append : Source → Action BasicString (Unit {0})
  unfolding size get_size max_size append_steps
  append source s =
      let sz = size s in
      let new_size = add64 sz (get_size source) in
      if ltb (max_size env) new_size
      then (throws length_error, s)
      else if s.sso
      then transaction (append_steps sz source new_size) s
      else on_large (vector_insert env sz source) s

  -- `push_back(ch)`
  unfoldable pub push_back : ℕ → Action BasicString (Unit {0})
  unfolding append
  push_back ch = append (fill 1 ch)

  -- The part of `insert` and of `replace` that stays in the array: the characters from `from` on
  -- move to make room for the source.
  abbrev pub edit_sso : ℕ → ℕ → Source → ℕ → BasicString → BasicString
  edit_sso index from source new_size s =
      let count = get_size source in
      let moved = record s {
        sso_data = traits_move (index + count) from (size s - from) s.sso_data;
      } in
      terminate new_size (set_sso_size new_size (put index (map some (values source)) moved))

  -- What `insert` runs in its transaction
  unfoldable pub insert_steps : ℕ → Source → ℕ → Action BasicString (Unit {0})
  unfolding size get_size add_sso_to_tx sso_to_large set_sso_size
  insert_steps index source new_size s =
      if s.sso && leb new_size sso_capacity
      then (do
        add_sso_to_tx env index (size s - index + get_size source + 1)
        modify (edit_sso index index source new_size))
          s
      else (do
        if s.sso then sso_to_large env new_size else pass tt
        on_large (vector_insert env index source))
          s

  -- `insert(pos, count, ch)` and `insert(pos, first, last)`, where `pos` is at the index
  unfoldable pub insert : ℕ → Source → Action BasicString (Unit {0})
  unfolding size get_size max_size insert_steps
  insert index source s =
      let new_size = add64 (size s) (get_size source) in
      if ltb (max_size env) new_size
      then (throws length_error, s)
      else transaction (insert_steps index source new_size) s

  -- `insert(index, count, ch)` and `insert(index, s, count)`
  unfoldable pub insert_at : ℕ → Source → Action BasicString (Unit {0})
  unfolding insert size
  insert_at index source s =
      if ltb (size s) index then (throws out_of_range, s) else insert index source s

  -- `if (!is_sso_used() && new_size <= sso_capacity) large_to_sso();`
  unfoldable pub shrink_to_sso : ℕ → Action BasicString (Unit {0})
  unfolding large_to_sso
  shrink_to_sso new_size s =
      if not s.sso && leb new_size sso_capacity then large_to_sso env s else (ok tt, s)

  -- The replacement itself
  unfoldable pub replace_steps : ℕ → ℕ → Source → ℕ → Action BasicString (Unit {0})
  unfolding get_size add_sso_to_tx sso_to_large set_sso_size size
  replace_steps index count source new_size s =
      if s.sso && leb new_size sso_capacity
      then (do
        add_sso_to_tx env index (new_size - index + 1)
        modify (edit_sso index (index + count) source new_size))
          s
      else (do
        if s.sso then sso_to_large env new_size else pass tt
        on_large (vector_erase env index count)
        on_large (vector_insert env index source))
          s

  -- `replace(first, last, count2, ch)` and `replace(first, last, first2, last2)`
  unfoldable pub replace : ℕ → ℕ → Source → Action BasicString (Unit {0})
  unfolding size get_size max_size replace_steps shrink_to_sso
  replace index n source s =
      let sz = size s in
      let count = min n (sz - index) in
      let new_size = add64 (sz - count) (get_size source) in
      if ltb (max_size env) new_size
      then (throws length_error, s)
      else transaction (do replace_steps index count source new_size; shrink_to_sso new_size) s

  -- `replace(index, count, count2, ch)` and `replace(index, count, s, count2)`
  unfoldable pub replace_at : ℕ → ℕ → Source → Action BasicString (Unit {0})
  unfolding replace size
  replace_at index n source s =
      if ltb (size s) index then (throws out_of_range, s) else replace index n source s

  -- `resize(count, ch)`
  unfoldable pub resize : ℕ → ℕ → Action BasicString (Unit {0})
  unfolding size max_size append set_sso_size add_range
  resize count ch s =
      let sz = size s in
      let terminate_large = modify (λ t. record t {
        non_sso = record t.non_sso { block = write (t.non_sso.size - 1) (some 0) t.non_sso.block };
      }) in
      if ltb (max_size env) count
      then (throws length_error, s)
      else transaction
          (if ltb sz count
            then append (fill (count - sz) ch)
            else if s.sso
            then (do modify (set_sso_size count); add_element env count; modify (terminate count))
            else (do on_large (vector_resize_fill env (count + 1) (outside ch)); terminate_large))
          s

  -- `reserve(new_cap)`
  unfoldable pub reserve : ℕ → Action BasicString (Unit {0})
  unfolding capacity max_size sso_to_large
  reserve new_cap s =
      if ltb (max_size env) new_cap
      then (throws length_error, s)
      else if ltb new_cap (capacity s) || leb new_cap sso_capacity
      then (ok tt, s)
      else if s.sso
      then transaction (sso_to_large env new_cap) s
      else on_large (vector_reserve env (new_cap + 1)) s

  -- `shrink_to_fit()`
  unfoldable pub shrink_to_fit : Action BasicString (Unit {0})
  unfolding size large_to_sso
  shrink_to_fit s =
      if s.sso
      then (ok tt, s)
      else if leb (size s) sso_capacity
      then transaction (large_to_sso env) s
      else on_large (vector_shrink_to_fit env) s

  -- `free_data()`
  unfoldable pub free_data : Action BasicString (Unit {0})
  unfolding add_sso_to_tx clear destroy_data enable_sso
  free_data s =
      transaction
        (if s.sso
          then (do add_sso_to_tx env 0 (s.sso_size + 1); clear)
          else (do destroy_data env; modify enable_sso))
        s
