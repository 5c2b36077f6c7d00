-- ===== src/BasicString/Erasure.antt =====
-- What `erase` does to the text of a string.
use mathlib.Core.List.{append-nil}
use libpmemobj_cpp.Common.{
  ℕ, ◌+◌, ◌-◌, min, ◌≡◌, refl, subst, sym, ◌∙◌, inl, inr, Bool-cases, true, false, ltb, if-true,
  if-false, lt→ltb, some, le→ltb, List, [], ◌∷◌, ◌++◌, length, arith, length-append, if◌then◌else◌,
}
use libpmemobj_cpp.Common.Effect.{ok, pass, modify, ◌>>◌}
use libpmemobj_cpp.Snapshot.{Range}
use libpmemobj_cpp.Vector.{Block, Env}
use libpmemobj_cpp.Vector.Cells.{write, create_all, At, At-front}
use libpmemobj_cpp.Vector.Modify.{erase as vector_erase}
use libpmemobj_cpp.Vector.Content.{NoFailure}
use libpmemobj_cpp.BasicString.{BasicString, size, on_large, transaction}
use libpmemobj_cpp.BasicString.Representation.{traits_move, set_sso_size, add_range}
use libpmemobj_cpp.BasicString.Modify.{erase_steps, erase}
use libpmemobj_cpp.BasicString.Content.{
  Small, Text, GivesText, run-GivesText, terminated, add_range-OnlyAdds,
}
use libpmemobj_cpp.BasicString.Rebuilding.{Text-Small, Text-Large, size-Text, transaction-run}
use libpmemobj_cpp.BasicString.Blocks.{gap_filled}
use libpmemobj_cpp.BasicString.Edits.{length-parts, Large-erase}

-- The array after the characters behind a gap have moved onto it
abbrev closed : ℕ → ℕ → ℕ → Block ℕ → Block ℕ
closed index count move_len c =
    if ltb 0 move_len then traits_move index (index + count) move_len c else c

closed-At :
    (env : Env ℕ) (c : Block ℕ) (ps ms ss : List ℕ)
    → At c 0 (ps ++ ms ++ ss)
    → At (closed (length ps) (length ms) (length ss) c) 0 (ps ++ ss)
unfolding create_all
closed-At env c ps ms [] h = rw append-nil (At-front c ps ms (At-front c (ps ++ ms) [] h).0).0
closed-At env c ps ms (x ∷ ss) h =
    let from = length ps + length ms in
    let (front, back) = At-front c (ps ++ ms) (x ∷ ss) h in
    let (kept, gone) = At-front c ps ms front in
    let filled =
      gap_filled env c from ps [] (x ∷ ss) kept
        (subst (λ k. At c k (x ∷ ss)) (length-append ps ms) back) in
    let some_left : ltb 0 (length (x ∷ ss)) ≡ true = lt→ltb 0 (length (x ∷ ss)) (omega arith) in
    let moved = traits_move (length ps) from (length (x ∷ ss)) c in
    subst (λ b. At (if b then moved else c) 0 (ps ++ x ∷ ss)) (sym some_left)
      (subst (λ k. At (traits_move k from (length (x ∷ ss)) c) 0 (ps ++ x ∷ ss)) (omega arith)
        (subst (λ l. At (traits_move (length ps + 0) from (length (x ∷ ss)) c) 0 (l ++ x ∷ ss))
          (append-nil ps) filled))

module _ (env : Env ℕ) (safe : NoFailure env) where
  close_gap_lem :
      (index count m : ℕ) (s : BasicString)
      → (log : List Range) × ((if ltb 0 m
              then (do
                add_range env (record { first = index; count = m + 1; snapshot = true })
                modify
                    (λ t. record t { sso_data = traits_move index (index + count) m t.sso_data }))
              else pass tt)
            s
          ≡ (ok tt, record s { added = log; sso_data = closed index count m s.sso_data }))
  close_gap_lem index count m s =
      let (log, e) =
        add_range-OnlyAdds env safe (record { first = index; count = m + 1; snapshot = true }) s in
      elim (Bool-cases (ltb 0 m)) [
        | inl some_left ↦ (log, rw some_left (ground (arith, e)))
        | inr none_left ↦ (s.added, rw none_left refl)
      ]

  erase_steps-Small :
      (s : BasicString) (ps ms ss : List ℕ)
      → Small s (ps ++ ms ++ ss)
      → (t : BasicString) × (erase_steps env (length ps) (length ms) s ≡ (ok tt, t))
        × Small t (ps ++ ss)
  unfolding erase_steps set_sso_size
  erase_steps-Small s ps ms ss h =
      let parts = length-parts ps ms ss in
      let sz = size-Text s (ps ++ ms ++ ss) (inl h) in
      let left : size s - length ps - length ms ≡ length ss = omega (arith, sz, parts) in
      let (log, e) = close_gap_lem (length ps) (length ms) (length ss) s in
      let block = closed (length ps) (length ms) (length ss) s.sso_data in
      let n = length ps + length ss in
      let (log', e') =
        add_range-OnlyAdds env safe (record { first = n; count = 1; snapshot = true })
          (record s { added = log; sso_data = block }) in
      let text =
        closed-At env s.sso_data ps ms ss (At-front s.sso_data (ps ++ ms ++ ss) (0 ∷ []) h.3).0 in
      let sum = length-append ps ss in
      (
        record s {
          sso = true;
          sso_size = size s - length ms;
          added = log';
          sso_data = write n (some 0) block;
        },
        rw left (ground (arith, e, e')),
        (
          refl,
          omega (arith, sz, parts, sum),
          omega (arith, h.2, parts, sum),
          terminated block n (ps ++ ss) (omega (arith, sum)) text,
        ),
      )

module _ (env : Env ℕ) (safe : NoFailure env) where
  -- `erase` of a part of the text, or of all from an index on, when libpmemobj does not fail: the
  -- characters before and behind the part are left.
  pub string_erase_contents :
      (s : BasicString) (ps ms ss : List ℕ) (n : ℕ)
      → Text s (ps ++ ms ++ ss)
      → min n (length ms + length ss) ≡ length ms
      → GivesText (erase env (length ps) n s) (ps ++ ss)
  unfolding erase
  string_erase_contents s ps ms ss n h part =
      let sz = size-Text s (ps ++ ms ++ ss) h in
      let parts = length-parts ps ms ss in
      let inside : ltb (size s) (length ps) ≡ false =
        le→ltb (size s) (length ps) (omega (arith, sz, parts)) in
      let count : min n (size s - length ps) ≡ length ms = omega (arith, sz, parts, part) in
      let out = erase env (length ps) n s in
      let steps = erase_steps env (length ps) (length ms) in
      let direct = on_large (vector_erase env (length ps) (length ms)) s in
      elim (Bool-cases s.sso) [
        | inl short ↦
            let (t, run, text) =
              erase_steps-Small env safe (record s { added = [] }) ps ms ss
                (Text-Small s (ps ++ ms ++ ss) h short) in
            run-GivesText out t (ps ++ ss)
              (rw (inside, count)
                (if-true (transaction steps s) direct short ∙ transaction-run steps s t run))
              (inl text)
        | inr long ↦
            let (t, run, text) =
              Large-erase env safe s ps ms ss (Text-Large s (ps ++ ms ++ ss) h long) in
            run-GivesText out t (ps ++ ss)
              (rw (inside, count) (if-false (transaction steps s) direct long ∙ run)) (inr text)
      ]
