-- ===== src/BasicString/Replacement.antt =====
-- What `replace` does to the text of a string.
use libpmemobj_cpp.Common.{
  ℕ, ◌+◌, ◌-◌, min, ◌≤◌, ◌<◌, ◌≡◌, refl, subst, sym, ◌∙◌, inl, inr, Bool-cases, false, not, if-true,
  if-false, leb, leb→le, ◌&&◌, List, [], ◌++◌, length, arith, if◌then◌else◌,
}
use libpmemobj_cpp.Common.Words.{add64}
use libpmemobj_cpp.Common.Effect.{ok, pass, modify, ◌>>◌, run-then, run-true, run-false}
use libpmemobj_cpp.Vector.{Env}
use libpmemobj_cpp.Vector.Modify.{erase as vector_erase}
use libpmemobj_cpp.Vector.Content.{NoFailure}
use libpmemobj_cpp.BasicString.{BasicString, Source, values, get_size, size, sso_capacity, on_large}
use libpmemobj_cpp.BasicString.Representation.{
  vector_insert, add_sso_to_tx, sso_to_large, large_to_sso,
}
use libpmemobj_cpp.BasicString.Modify.{edit_sso, replace_steps, shrink_to_sso, replace}
use libpmemobj_cpp.BasicString.Content.{
  Large, Text, GivesText, run-GivesText, get_size-length, add_sso_to_tx-OnlyAdds,
}
use libpmemobj_cpp.BasicString.Rebuilding.{
  Text-Small, size-Text, transaction-run, sso_to_large-Large, large_to_sso-Small,
}
use libpmemobj_cpp.BasicString.Blocks.{Fits, Fits-allowed}
use libpmemobj_cpp.BasicString.Edits.{
  OfChars, length-parts, edit_sso-Small, Large-insert, Large-erase,
}
use libpmemobj_cpp.BasicString.Insertion.{not-too_long}

-- The large string that the last step of `replace` may put back into its array
module _ (env : Env ℕ) (safe : NoFailure env) where
  shrink_to_sso-Text :
      (s : BasicString) (xs : List ℕ) (n : ℕ)
      → Text s xs
      → n ≡ length xs
      → sso_capacity < env.max_size
      → (t : BasicString) × (shrink_to_sso env n s ≡ (ok tt, t)) × Text t xs
  unfolding shrink_to_sso
  shrink_to_sso-Text s xs n h total allowed = elim (Bool-cases (not s.sso && leb n sso_capacity)) [
    | inl shrinks ↦
        let short : n ≤ sso_capacity = leb→le n sso_capacity (ground (arith, shrinks)) in
        let (t, run, text) = large_to_sso-Small env safe s xs h (omega (arith, total)) allowed in
        (t, if-true (large_to_sso env s) (ok tt, s) shrinks ∙ run, inl text)
    | inr stays ↦ (s, if-false (large_to_sso env s) (ok tt, s) stays, h)
  ]

module _ (env : Env ℕ) (safe : NoFailure env) (copies : OfChars env) where
  -- The vector of a string that was large or has become large for the replacement
  replace-Large :
      (s : BasicString) (ps ms ss : List ℕ) (source : Source)
      → Large s (ps ++ ms ++ ss)
      → Fits env (length ps + length (values source) + length ss)
      → (t : BasicString) × ((do
        on_large (vector_erase env (length ps) (length ms))
        on_large (vector_insert env (length ps) source))
            s
          ≡ (ok tt, t))
        × Large t (ps ++ values source ++ ss)
  replace-Large s ps ms ss source h fits =
      let (u, run, text) = Large-erase env safe s ps ms ss h in
      let (t, run', text') = Large-insert env safe copies u ps ss source text fits in
      (
        t,
        run-then (on_large (vector_erase env (length ps) (length ms)))
              (on_large (vector_insert env (length ps) source)) run
            ∙ run',
        text',
      )

  grow_and_replace :
      (s : BasicString) (ps ms ss : List ℕ) (source : Source) (n : ℕ)
      → Text s (ps ++ ms ++ ss)
      → n ≡ length ps + length (values source) + length ss
      → Fits env n
      → s.sso && leb n sso_capacity ≡ false
      → (t : BasicString) × ((do
        if s.sso then sso_to_large env n else pass tt
        on_large (vector_erase env (length ps) (length ms))
        on_large (vector_insert env (length ps) source))
            s
          ≡ (ok tt, t))
        × Large t (ps ++ values source ++ ss)
  grow_and_replace s ps ms ss source n (inl h) total fits grows =
      let long : sso_capacity < n = ground (arith, h.0) in
      let rest = (do
        on_large (vector_erase env (length ps) (length ms))
        on_large (vector_insert env (length ps) source)) in
      let (u, run, text) =
        sso_to_large-Large env safe n s (ps ++ ms ++ ss) (inl h) (omega (arith, h.2, long)) long
          (Fits-allowed env n fits) in
      let (t, run', text') =
        replace-Large u ps ms ss source text (subst (λ k. Fits env k) total fits) in
      let enters = run-true s.sso (sso_to_large env n) (pass tt) s h.0 ∙ run in
      (t, run-then (if s.sso then sso_to_large env n else pass tt) rest enters ∙ run', text')
  grow_and_replace s ps ms ss source n (inr h) total fits grows =
      let rest = (do
        on_large (vector_erase env (length ps) (length ms))
        on_large (vector_insert env (length ps) source)) in
      let (t, run', text') =
        replace-Large s ps ms ss source h (subst (λ k. Fits env k) total fits) in
      let enters = run-false s.sso (sso_to_large env n) (pass tt) s h.0 in
      (t, run-then (if s.sso then sso_to_large env n else pass tt) rest enters ∙ run', text')

  replace_steps-Text :
      (s : BasicString) (ps ms ss : List ℕ) (source : Source) (n : ℕ)
      → Text s (ps ++ ms ++ ss)
      → n ≡ length ps + length (values source) + length ss
      → Fits env n
      → (t : BasicString) × (replace_steps env (length ps) (length ms) source n s ≡ (ok tt, t))
        × Text t (ps ++ values source ++ ss)
  unfolding replace_steps
  replace_steps-Text s ps ms ss source n h total fits =
      elim (Bool-cases (s.sso && leb n sso_capacity)) [
        | inl stays ↦
            let adds = n - length ps + 1 in
            let (log, e) = add_sso_to_tx-OnlyAdds env safe (length ps) adds s in
            let start : BasicString = record s { added = log } in
            let short : n ≤ sso_capacity = leb→le n sso_capacity (ground (arith, stays)) in
            let small = Text-Small s (ps ++ ms ++ ss) h (ground (arith, stays)) in
            let edit = edit_sso env (length ps) (length ps + length ms) source n in
            (
              edit start,
              rw stays (run-then (add_sso_to_tx env (length ps) adds) (modify edit) e),
              inl (edit_sso-Small env start ps ms ss source n small total short),
            )
        | inr grows ↦
            let (t, run, text) = grow_and_replace s ps ms ss source n h total fits grows in
            (t, rw grows run, inr text)
      ]

  -- `replace` of a part of the text, or of all from an index on, when libpmemobj does not fail and
  -- the new text fits: the characters of the source stand in place of the part.
  pub replace_contents :
      (s : BasicString) (ps ms ss : List ℕ) (n : ℕ) (source : Source)
      → Text s (ps ++ ms ++ ss)
      → min n (length ms + length ss) ≡ length ms
      → Fits env (length ps + length (values source) + length ss)
      → sso_capacity < env.max_size
      → GivesText (replace env (length ps) n source s) (ps ++ values source ++ ss)
  unfolding replace
  replace_contents s ps ms ss n source h part fits allowed =
      let k = length ps + length (values source) + length ss in
      let sz = size-Text s (ps ++ ms ++ ss) h in
      let parts = length-parts ps ms ss in
      let count : min n (size s - length ps) ≡ length ms = omega (arith, sz, parts, part) in
      let total : add64 (size s - length ms) (get_size source) ≡ k =
        omega (arith, sz, parts, get_size-length source, fits.1) in
      let steps = replace_steps env (length ps) (length ms) source k in
      let (u, run, text) =
        replace_steps-Text (record s { added = [] }) ps ms ss source k h refl fits in
      let (t, run', text') =
        shrink_to_sso-Text env safe u (ps ++ values source ++ ss) k text
          (sym (length-parts ps (values source) ss)) allowed in
      run-GivesText (replace env (length ps) n source s) t (ps ++ values source ++ ss)
        (rw (count, total, not-too_long env k fits)
          (transaction-run (do steps; shrink_to_sso env k) s t
            (run-then steps (shrink_to_sso env k) run ∙ run')))
        text'
