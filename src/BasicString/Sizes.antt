-- ===== src/BasicString/Sizes.antt =====
-- What the constructors, `reserve` and `shrink_to_fit` do to the text and to the capacity.
use libpmemobj_cpp.Common.{
  ℕ, ◌+◌, ◌≤◌, ◌<◌, ◌≡◌, refl, subst, sym, ◌∙◌, inl, inr, Bool-cases, false, leb, if-true, if-false,
  leb→le, le→leb, List, [], ◌∷◌, ◌++◌, length, arith, length-append, if◌then◌else◌,
}
use libpmemobj_cpp.Common.Effect.{ok}
use libpmemobj_cpp.Vector.{Env}
use libpmemobj_cpp.Vector.Modify.{shrink_to_fit as vector_shrink_to_fit}
use libpmemobj_cpp.Vector.Content.{NoFailure}
use libpmemobj_cpp.Vector.Sizes.{shrink_to_fit_contents as vector_shrink_to_fit_contents}
use libpmemobj_cpp.Vector.Presence.{shrink_to_fit_present}
use libpmemobj_cpp.BasicString.{
  BasicString, Source, values, get_size, size, sso_capacity, on_large, transaction,
}
use libpmemobj_cpp.BasicString.Representation.{large_to_sso, empty_vector}
use libpmemobj_cpp.BasicString.Modify.{construct, shrink_to_fit}
use libpmemobj_cpp.BasicString.Content.{Large, Text, GivesText, get_size-length}
use libpmemobj_cpp.BasicString.Building.{build-Text}
use libpmemobj_cpp.BasicString.Rebuilding.{
  Text-Small, Text-Large, size-Text, transaction-run, large_to_sso-Small,
}

module _ (env : Env ℕ) (safe : NoFailure env) where
  -- The constructors from a range, and from a count and a character, when no call of libpmemobj
  -- fails and a vector may hold the text and its null character: they return, and the new string
  -- holds the text, in its array exactly if the text has at most 23 characters.
  pub construct_contents :
      (s : BasicString) (source : Source)
      → length (values source) + 1 ≤ env.max_size
      → GivesText (construct env source s) (values source)
        × ((construct env source s).1.sso ≡ leb (length (values source)) sso_capacity)
  unfolding construct
  construct_contents s source allowed =
      let len = get_size-length source in
      let xs = values source in
      let raw : BasicString = record s { sso = false; non_sso = empty_vector } in
      let (t, run, text) =
        build-Text env safe (get_size source) raw source (omega (arith, len))
          (omega (arith, len)) in
      subst (λ o. GivesText o xs × (o.1.sso ≡ leb (length xs) sso_capacity)) (sym run)
        (elim text [
          | inl (p, small) ↦ (
            (refl, inl small),
            small.0 ∙ sym (le→leb (length xs) sso_capacity (omega (arith, len))),
          )
          | inr (p, large) ↦
              let long : leb (length xs) sso_capacity ≡ false = ground (arith, len, p) in
              ((refl, inr large), large.0 ∙ sym long)
        ])

  -- A large string with a vector that gives up what it does not need
  shrink_vector :
      (s : BasicString) (xs : List ℕ)
      → Large s xs
      → length xs + 1 ≤ env.max_size
      → (t : BasicString) × (on_large (vector_shrink_to_fit env) s ≡ (ok tt, t)) × Large t xs
  shrink_vector s xs h room =
      let out = vector_shrink_to_fit env s.non_sso in
      let elements = length-append xs (0 ∷ []) in
      let ((run, held, fits), cap) =
        vector_shrink_to_fit_contents env s.non_sso (xs ++ 0 ∷ []) safe h.1.0 (inl h.1.2)
          (omega (arith, h.1.0.0, elements, room)) in
      let present =
        shrink_to_fit_present env s.non_sso safe h.1.2 (omega (arith, h.1.0.0, elements))
          (omega (arith, h.1.0.0, elements, room)) in
      (record s { non_sso = out.1 }, rw run refl, (h.0, (held, fits, present)))

  shrink_to_fit-run :
      (s : BasicString) (xs : List ℕ)
      → Text s xs
      → sso_capacity < env.max_size
      → length xs + 1 ≤ env.max_size
      → (t : BasicString) × (shrink_to_fit env s ≡ (ok tt, t))
        × Text t xs
        × (t.sso ≡ leb (length xs) sso_capacity)
  unfolding shrink_to_fit
  shrink_to_fit-run s xs h allowed room =
      let size_is = size-Text s xs h in
      let keep = on_large (vector_shrink_to_fit env) s in
      let back = transaction (large_to_sso env) s in
      let shrinks = if leb (size s) sso_capacity then back else keep in
      elim (Bool-cases s.sso) [
        | inl short ↦
            let small = Text-Small s xs h short in
            (
              s,
              if-true (ok tt, s) shrinks short,
              h,
              short ∙ sym (le→leb (length xs) sso_capacity small.2),
            )
        | inr long ↦ elim (Bool-cases (leb (length xs) sso_capacity)) [
          | inl fits ↦
              let (t, run, small) =
                large_to_sso-Small env safe (record s { added = [] }) xs h
                  (leb→le (length xs) sso_capacity fits) allowed in
              (
                t,
                if-false (ok tt, s) shrinks long
                    ∙ rw (size_is, fits) (transaction-run (large_to_sso env) s t run),
                inl small,
                small.0 ∙ sym fits,
              )
          | inr exceeds ↦
              let (t, run, large) = shrink_vector s xs (Text-Large s xs h long) room in
              (
                t,
                if-false (ok tt, s) shrinks long ∙ rw (size_is, exceeds) run,
                inr large,
                large.0 ∙ sym exceeds,
              )
        ]
      ]

  -- shrink_to_fit of a string that holds a text, when no call of libpmemobj fails and a vector may
  -- have more than 23 elements and the text with its null character: it returns, the text is kept,
  -- and it is then in the array exactly if it has at most 23 characters.
  pub string_shrink_to_fit_contents :
      (s : BasicString) (xs : List ℕ)
      → Text s xs
      → sso_capacity < env.max_size
      → length xs + 1 ≤ env.max_size
      → GivesText (shrink_to_fit env s) xs
        × ((shrink_to_fit env s).1.sso ≡ leb (length xs) sso_capacity)
  string_shrink_to_fit_contents s xs h allowed room =
      let (t, run, text, place) = shrink_to_fit-run s xs h allowed room in
      subst (λ o. GivesText o xs × (o.1.sso ≡ leb (length xs) sso_capacity)) (sym run)
        ((refl, text), place)
