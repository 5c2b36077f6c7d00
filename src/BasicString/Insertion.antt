-- ===== src/BasicString/Insertion.antt =====
-- What `insert` and `append` do to the text of a string.
use mathlib.Core.List.{append-nil}
use libpmemobj_cpp.Common.{
  ℕ, ◌+◌, ◌-◌, ◌≤◌, ◌<◌, ◌≡◌, refl, subst, ◌∙◌, inl, inr, Bool-cases, true, false, if-true, ltb,
  ltb→lt, ltb→le, some, leb, leb→le, ◌&&◌, List, [], ◌∷◌, ◌++◌, map, length, arith, length-append,
  if◌then◌else◌,
}
use libpmemobj_cpp.Common.Words.{add64}
use libpmemobj_cpp.Common.Effect.{ok, pass, modify, ◌>>◌, run-then, run-true, run-false}
use libpmemobj_cpp.Vector.{Env}
use libpmemobj_cpp.Vector.Cells.{write, create_all, At-front, create_all-extends}
use libpmemobj_cpp.Vector.Content.{NoFailure}
use libpmemobj_cpp.BasicString.{
  BasicString, Source, values, get_size, size, max_size, sso_capacity, on_large, transaction,
}
use libpmemobj_cpp.BasicString.Representation.{
  set_sso_size, vector_insert, add_sso_to_tx, sso_to_large,
}
use libpmemobj_cpp.BasicString.Modify.{edit_sso, insert_steps, insert, append_steps, append}
use libpmemobj_cpp.BasicString.Content.{
  Small, Large, Text, GivesText, run-GivesText, get_size-length, terminated, add_sso_to_tx-OnlyAdds,
}
use libpmemobj_cpp.BasicString.Rebuilding.{
  Text-Small, Text-Large, size-Text, transaction-run, sso_to_large-Large,
}
use libpmemobj_cpp.BasicString.Blocks.{Fits, Fits-allowed}
use libpmemobj_cpp.BasicString.Edits.{OfChars, edit_sso-Small, Large-insert}

-- A text that fits passes the test of the size, and the sum does not wrap.
pub not-too_long : (env : Env ℕ) (n : ℕ) → Fits env n → ltb (max_size env) n ≡ false
unfolding max_size
not-too_long env n h = let room = Fits-allowed env n h in ground arith

module _ (env : Env ℕ) (safe : NoFailure env) (copies : OfChars env) where
  -- The steps on a string that leaves its array or has left it.
  grow_and_insert :
      (s : BasicString) (ps ss : List ℕ) (source : Source) (n : ℕ)
      → Text s (ps ++ ss)
      → n ≡ length ps + length (values source) + length ss
      → Fits env n
      → s.sso && leb n sso_capacity ≡ false
      → (t : BasicString) × ((do
        if s.sso then sso_to_large env n else pass tt
        on_large (vector_insert env (length ps) source))
            s
          ≡ (ok tt, t))
        × Large t (ps ++ values source ++ ss)
  grow_and_insert s ps ss source n (inl h) total fits grows =
      let long : sso_capacity < n = ground (arith, h.0) in
      let (u, run, text) =
        sso_to_large-Large env safe n s (ps ++ ss) (inl h)
          (omega (arith, total, length-append ps ss)) long (Fits-allowed env n fits) in
      let (t, run', text') =
        Large-insert env safe copies u ps ss source text (subst (λ k. Fits env k) total fits) in
      let enters = run-true s.sso (sso_to_large env n) (pass tt) s h.0 ∙ run in
      (
        t,
        run-then (if s.sso then sso_to_large env n else pass tt)
              (on_large (vector_insert env (length ps) source)) enters
            ∙ run',
        text',
      )
  grow_and_insert s ps ss source n (inr h) total fits grows =
      let (t, run, text) =
        Large-insert env safe copies s ps ss source h (subst (λ k. Fits env k) total fits) in
      let enters = run-false s.sso (sso_to_large env n) (pass tt) s h.0 in
      (
        t,
        run-then (if s.sso then sso_to_large env n else pass tt)
              (on_large (vector_insert env (length ps) source)) enters
            ∙ run,
        text,
      )

  insert_steps-Text :
      (s : BasicString) (ps ss : List ℕ) (source : Source) (n : ℕ)
      → Text s (ps ++ ss)
      → n ≡ length ps + length (values source) + length ss
      → Fits env n
      → (t : BasicString) × (insert_steps env (length ps) source n s ≡ (ok tt, t))
        × Text t (ps ++ values source ++ ss)
  unfolding insert_steps
  insert_steps-Text s ps ss source n h total fits =
      elim (Bool-cases (s.sso && leb n sso_capacity)) [
        | inl stays ↦
            let adds = size s - length ps + get_size source + 1 in
            let (log, e) = add_sso_to_tx-OnlyAdds env safe (length ps) adds s in
            let start : BasicString = record s { added = log } in
            let short : n ≤ sso_capacity = leb→le n sso_capacity (ground (arith, stays)) in
            let small : Small start (ps ++ [] ++ ss) =
              rw append-nil (Text-Small s (ps ++ ss) h (ground (arith, stays))) in
            let edited = edit_sso-Small env start ps [] ss source n small total short in
            (
              edit_sso env (length ps) (length ps) source n start,
              rw stays (
                  run-then (add_sso_to_tx env (length ps) adds)
                    (modify (edit_sso env (length ps) (length ps) source n)) e),
              inl (
                  subst
                    (λ k.
                      Small (edit_sso env (length ps) k source n start) (ps ++ values source ++ ss))
                    (omega arith) edited),
            )
        | inr grows ↦
            let (t, run, text) = grow_and_insert s ps ss source n h total fits grows in
            (t, rw grows run, inr text)
      ]

  -- `insert` at an index of the text, when libpmemobj does not fail and the new text fits: the
  -- characters stand between those before the index and those behind it.
  pub insert_contents :
      (s : BasicString) (ps ss : List ℕ) (source : Source)
      → Text s (ps ++ ss)
      → Fits env (length ps + length (values source) + length ss)
      → GivesText (insert env (length ps) source s) (ps ++ values source ++ ss)
  unfolding insert
  insert_contents s ps ss source h fits =
      let n = length ps + length (values source) + length ss in
      let total : add64 (size s) (get_size source) ≡ n =
        omega
          (arith, size-Text s (ps ++ ss) h, get_size-length source, length-append ps ss, fits.1) in
      let enough = not-too_long env n fits in
      let (t, run, text) = insert_steps-Text (record s { added = [] }) ps ss source n h refl fits in
      run-GivesText (insert env (length ps) source s) t (ps ++ values source ++ ss)
        (rw (total, enough) (transaction-run (insert_steps env (length ps) source n) s t run)) text

  append_steps-Text :
      (s : BasicString) (xs : List ℕ) (source : Source) (n : ℕ)
      → Small s xs
      → n ≡ length xs + length (values source)
      → Fits env n
      → (t : BasicString) × (append_steps env (length xs) source n s ≡ (ok tt, t))
        × Text t (xs ++ values source)
  unfolding append_steps set_sso_size
  append_steps-Text s xs source n h total fits = elim (Bool-cases (ltb sso_capacity n)) [
    | inl grows ↦
        let long = ltb→lt sso_capacity n grows in
        let (u, run, text) =
          sso_to_large-Large env safe n s xs (inl h) (omega (arith, total)) long
            (Fits-allowed env n fits) in
        let (t, run', text') =
          Large-insert env safe copies u xs [] source (rw append-nil text)
            (subst (λ k. Fits env k) (omega (arith, total)) fits) in
        (
          t,
          rw grows (
              run-then (sso_to_large env n) (on_large (vector_insert env (length xs) source)) run
              ∙ run'),
          inr (subst (λ l. Large t l) (append-nil (xs ++ values source)) text'),
        )
    | inr stays ↦
        let len = get_size-length source in
        let (log, e) = add_sso_to_tx-OnlyAdds env safe (length xs) (get_size source + 1) s in
        let filled =
          create_all-extends s.sso_data 0 (length xs) xs (values source) (omega arith)
            (At-front s.sso_data xs (0 ∷ []) h.3).0 in
        let sum = length-append xs (values source) in
        (
          record s {
            sso = true;
            sso_size = n;
            added = log;
            sso_data =
                write n (some 0) (create_all (length xs) (map some (values source)) s.sso_data);
          },
          ground (arith, stays, e),
          inl (
            refl,
            omega (arith, sum, total),
            omega (arith, sum, total, ltb→le sso_capacity n stays),
            terminated _ n (xs ++ values source) (omega (arith, sum, total)) filled,
          ),
        )
  ]

  -- `append`, in both overloads, when libpmemobj does not fail and the new text fits: the
  -- characters stand behind the text.
  pub append_contents :
      (s : BasicString) (xs : List ℕ) (source : Source)
      → Text s xs
      → Fits env (length xs + length (values source))
      → GivesText (append env source s) (xs ++ values source)
  unfolding append
  append_contents s xs source h fits =
      let n = length xs + length (values source) in
      let at_end = size-Text s xs h in
      let total : add64 (size s) (get_size source) ≡ n =
        omega (arith, at_end, get_size-length source, fits.1) in
      let enough = not-too_long env n fits in
      let out = append env source s in
      elim (Bool-cases s.sso) [
        | inl short ↦
            let (t, run, text) =
              append_steps-Text (record s { added = [] }) xs source n (Text-Small s xs h short) refl
                fits in
            run-GivesText out t (xs ++ values source)
              (rw (total, enough)
                (if-true (transaction (append_steps env (size s) source n) s)
                    (on_large (vector_insert env (size s) source) s) short
                  ∙ rw at_end (transaction-run (append_steps env (length xs) source n) s t run)))
              text
        | inr long ↦
            let (t, run, text) =
              Large-insert env safe copies s xs [] source (rw append-nil (Text-Large s xs h long))
                (subst (λ k. Fits env k) (omega arith) fits) in
            run-GivesText out t (xs ++ values source)
              (ground (arith, total, enough, at_end, long, run))
              (inr (subst (λ l. Large t l) (append-nil (xs ++ values source)) text))
      ]
