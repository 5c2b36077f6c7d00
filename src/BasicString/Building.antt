-- ===== src/BasicString/Building.antt =====
-- Building a string anew in its array or in its vector, and freeing what it had.
use libpmemobj_cpp.Common.{
  ℕ, ◌+◌, ◌≤◌, ◌<◌, ◌≡◌, refl, ◌∙◌, ◌⊎◌, inl, inr, leb, true, false, Bool-cases, none, some, [],
  ◌∷◌, map, length, arith, length-append,
}
use native.Mathlib.Decide.{dec_le}
use libpmemobj_cpp.Common.Effect.{ok, ◌>>◌}
use libpmemobj_cpp.Vector.{Vector, Env}
use libpmemobj_cpp.Vector.Cells.{write, create_all, create_all-extends}
use libpmemobj_cpp.Vector.Private.{dealloc, forget_data}
use libpmemobj_cpp.Vector.Modify.{reserve, free_data}
use libpmemobj_cpp.Vector.Content.{NoFailure, alloc_lem, realloc-absent}
use libpmemobj_cpp.Vector.Assignment.{assign_range-Assigned, emplace_back-Assigned, shrink-Assigned}
use libpmemobj_cpp.BasicString.{BasicString, Source, values, get_size, sso_capacity}
use libpmemobj_cpp.BasicString.Representation.{
  enable_sso, disable_sso, set_sso_size, empty_vector, destroy_data, create_large, allocate,
  assign_sso_data, assign_large_data, initialize,
}
use libpmemobj_cpp.BasicString.Content.{
  Small, Large, get_size-length, vector_assign-values, terminated, add_range-OnlyAdds,
  add_sso_to_tx-OnlyAdds,
}

module _ (env : Env ℕ) (safe : NoFailure env) where
  assign_sso_data-Small :
      (s : BasicString) (source : Source)
      → s.sso ≡ true
      → length (values source) ≤ sso_capacity
      → (t : BasicString) × (assign_sso_data env source s ≡ (ok tt, t)) × Small t (values source)
  unfolding assign_sso_data set_sso_size
  assign_sso_data-Small s source short fits =
      let xs = values source in
      let n = get_size source in
      let len = get_size-length source in
      let (log, e) = add_sso_to_tx-OnlyAdds env safe 0 (n + 1) s in
      let s1 : BasicString = record s {
        added = log;
        sso_data = create_all 0 (map some xs) s.sso_data;
      } in
      let s2 : BasicString = record s1 {
        sso_data = write n (some 0) s1.sso_data;
        sso = true;
        sso_size = n;
      } in
      let (log2, e2) =
        add_range-OnlyAdds env safe (record { first = 0; count = 1; snapshot = true }) s2 in
      (
        record s2 { added = log2 },
        ground (arith, e, e2),
        (
          refl,
          len,
          fits,
          terminated s1.sso_data n xs len (create_all-extends s.sso_data 0 0 [] xs refl tt),
        ),
      )

  reserve-fits : (n : ℕ) (v : Vector ℕ) → n ≤ v.capacity → reserve env n v ≡ (ok tt, v)
  unfolding reserve
  reserve-fits n v h = ground arith

  -- A vector with memory for the text and the null character.
  pub assign_large_data-Large :
      (s : BasicString) (source : Source)
      → s.sso ≡ false
      → s.non_sso.has_data ≡ true
      → length (values source) + 1 ≤ s.non_sso.capacity
      → (t : BasicString) × (assign_large_data env source s ≡ (ok tt, t)) × Large t (values source)
  unfolding assign_large_data
  assign_large_data-Large s source large present room =
      let xs = values source in
      let len = get_size-length source in
      let (w, run, a) = assign_range-Assigned env safe s.non_sso xs (omega arith) in
      let (u, run', b) =
        emplace_back-Assigned env safe w xs 0 a.held (omega (arith, a.held.0, a.same_capacity)) in
      (
        record s { non_sso = u },
        ground (
          arith,
          len,
          reserve-fits (get_size source + 1) s.non_sso (omega (arith, len)),
          vector_assign-values env source s.non_sso,
          run,
          run',
        ),
        (
          large,
          (
            b.held,
            omega (arith, b.held.0, b.same_capacity, a.same_capacity, length-append xs (0 ∷ [])),
            b.same_data ∙ a.same_data ∙ present,
          ),
        ),
      )

  create_large_lem :
      (n : ℕ) (s : BasicString)
      → n + 1 ≤ env.max_size
      → (t : BasicString) × (create_large env n s ≡ (ok tt, t))
        × (t.sso ≡ s.sso)
        × (t.non_sso.has_data ≡ true)
        × (t.non_sso.capacity ≡ n + 1)
  unfolding create_large reserve
  create_large_lem n s allowed =
      let (log, e) =
        add_range-OnlyAdds env safe (record { first = 0; count = 1; snapshot = false }) s in
      let v : Vector ℕ = record empty_vector {
        capacity = n + 1;
        has_data = true;
        block = λ _. none;
      } in
      let made = alloc_lem env safe (n + 1) empty_vector (omega arith) allowed in
      (
        record s { added = log; non_sso = v },
        ground (arith, e, realloc-absent env safe (n + 1) empty_vector v refl made),
        refl,
        refl,
        refl,
      )

  allocate-large :
      (n : ℕ) (s : BasicString)
      → sso_capacity < n
      → allocate env n s ≡ create_large env n (record s { sso = false })
  unfolding allocate disable_sso
  allocate-large n s h = let e : leb n sso_capacity ≡ false = ground arith in rw e

  allocate-small :
      (n : ℕ) (s : BasicString)
      → n ≤ sso_capacity
      → (t : BasicString) × (allocate env n s ≡ (ok tt, t)) × (t.sso ≡ true)
  unfolding allocate enable_sso
  allocate-small n s h =
      let e : leb n sso_capacity ≡ true = ground arith in
      elim (Bool-cases s.sso) [
        | inl short ↦ (s, rw (e, short) refl, short)
        | inr long ↦ (
          record s { sso = true; sso_size = s.non_sso.size; sso_data = λ _. none },
          rw (e, long) refl,
          refl,
        )
      ]

  build-Small :
      (n : ℕ) (s : BasicString) (source : Source)
      → length (values source) ≤ n
      → n ≤ sso_capacity
      → (t : BasicString) × ((do allocate env n; initialize env source) s ≡ (ok tt, t))
        × Small t (values source)
  unfolding initialize
  build-Small n s source fits p =
      let (u, made, short) = allocate-small n s p in
      let (t, run, text) = assign_sso_data-Small u source short (omega arith) in
      (t, ground (arith, made, short, run), text)

  build-Large :
      (n : ℕ) (s : BasicString) (source : Source)
      → length (values source) ≤ n
      → n + 1 ≤ env.max_size
      → sso_capacity < n
      → (t : BasicString) × ((do allocate env n; initialize env source) s ≡ (ok tt, t))
        × Large t (values source)
  unfolding initialize
  build-Large n s source fits allowed p =
      let (u, made, same, present, cap) = create_large_lem n (record s { sso = false }) allowed in
      let (t, run, text) = assign_large_data-Large u source same present (omega (arith, cap)) in
      (t, ground (arith, allocate-large n s p, made, same, run), text)

  -- A string that is built anew, with room for `n` characters.
  pub build-Text :
      (n : ℕ) (s : BasicString) (source : Source)
      → length (values source) ≤ n
      → n + 1 ≤ env.max_size
      → (t : BasicString) × ((do allocate env n; initialize env source) s ≡ (ok tt, t))
        × ((n ≤ sso_capacity) × Small t (values source)
            ⊎ (sso_capacity < n) × Large t (values source))
  build-Text n s source fits allowed = elim (dec_le n sso_capacity) [
    | yes p ↦ let (t, run, text) = build-Small n s source fits p in (t, run, inl (p, text))
    | no p ↦
        let (t, run, text) = build-Large n s source fits allowed (omega arith) in
        (t, run, inr (omega arith, text))
  ]

  free_data_lem : (v : Vector ℕ) → (w : Vector ℕ) × (free_data env v ≡ (ok tt, w))
  unfolding free_data dealloc
  free_data_lem v = elim (Bool-cases v.has_data) [
    | inl present ↦
        let (w, run, a) = shrink-Assigned env safe (record v { added = [] }) [] tt (omega arith) in
        ((forget_data env w), ground (arith, present, run, safe.1))
    | inr absent ↦ (v, ground (arith, absent))
  ]

  pub destroy_data_lem : (s : BasicString) → (t : BasicString) × (destroy_data env s ≡ (ok tt, t))
  unfolding destroy_data
  destroy_data_lem s = elim (Bool-cases s.sso) [
    | inl short ↦
        let (log, e) = add_sso_to_tx-OnlyAdds env safe 0 (s.sso_size + 1) s in
        (record s { added = log }, ground (arith, short, e))
    | inr long ↦
        let (v, e) = free_data_lem s.non_sso in (record s { non_sso = v }, ground (arith, long, e))
  ]
