-- ===== src/BasicString/Edits.antt =====
-- What the steps of `insert`, `append`, `erase` and `replace` do to the text, in the array and in
-- the vector.
use mathlib.Core.List.{append_assoc}
use libpmemobj_cpp.Common.{
  ℕ, ◌+◌, ◌-◌, ◌≤◌, ◌≡◌, refl, subst, sym, inl, List, [], ◌∷◌, ◌++◌, length, arith, length-append,
}
use libpmemobj_cpp.Common.Effect.{ok}
use libpmemobj_cpp.Vector.{Env}
use libpmemobj_cpp.Vector.Cells.{At, At-front}
use libpmemobj_cpp.Vector.Modify.{erase as vector_erase}
use libpmemobj_cpp.Vector.Content.{Holds, NoFailure}
use libpmemobj_cpp.Vector.Sizes.{erase_contents as vector_erase_contents}
use libpmemobj_cpp.Vector.Presence.{erase_present}
use libpmemobj_cpp.BasicString.{BasicString, Source, values, size, sso_capacity, on_large}
use libpmemobj_cpp.BasicString.Representation.{vector_insert, set_sso_size}
use libpmemobj_cpp.BasicString.Modify.{edit_sso}
use libpmemobj_cpp.BasicString.Content.{
  Small, Large, get_size-length, vector_insert-values, terminated,
}
use libpmemobj_cpp.BasicString.Rebuilding.{size-Text}
use libpmemobj_cpp.BasicString.Blocks.{Fits, gap_filled, vector_insert_any}

-- A character that is moved from stays.
abbrev pub OfChars : Env ℕ → Type 0
OfChars env = (x : ℕ) → env.moved_from x ≡ x

-- `ps ++ xs ++ ss` has the length of its parts.
pub length-parts : (ps xs ss : List ℕ) → length (ps ++ xs ++ ss) ≡ length ps + length xs + length ss
length-parts ps xs ss = omega (arith, length-append (ps ++ xs) ss, length-append ps xs)

pub edit_sso-Small :
    (env : Env ℕ) (s : BasicString) (ps ms ss : List ℕ) (source : Source) (n : ℕ)
    → Small s (ps ++ ms ++ ss)
    → n ≡ length ps + length (values source) + length ss
    → n ≤ sso_capacity
    → Small
        (edit_sso env (length ps) (length ps + length ms) source n s)
        (ps ++ values source ++ ss)
unfolding set_sso_size
edit_sso-Small env s ps ms ss source n h total fits =
    let ys = values source in
    let len = get_size-length source in
    let sz = length-parts ps ms ss in
    let (text, end) = At-front s.sso_data (ps ++ ms ++ ss) (0 ∷ []) h.3 in
    let (front, back) = At-front s.sso_data (ps ++ ms) ss text in
    let (kept, gone) = At-front s.sso_data ps ms front in
    let tail : size s - (length ps + length ms) ≡ length ss =
      omega (arith, size-Text s (ps ++ ms ++ ss) (inl h), sz) in
    let filled =
      gap_filled env s.sso_data (length ps + length ms) ps ys ss kept
        (subst (λ k. At s.sso_data k ss) (length-append ps ms) back) in
    (
      refl,
      omega (arith, total, length-parts ps ys ss),
      omega (arith, total, length-parts ps ys ss),
      rw (len, tail)
          (terminated _ n (ps ++ ys ++ ss) (omega (arith, total, length-parts ps ys ss)) filled),
    )

module _ (env : Env ℕ) (safe : NoFailure env) (copies : OfChars env) where
  pub Large-insert :
      (s : BasicString) (ps ss : List ℕ) (source : Source)
      → Large s (ps ++ ss)
      → Fits env (length ps + length (values source) + length ss)
      → (t : BasicString) × (on_large (vector_insert env (length ps) source) s ≡ (ok tt, t))
        × Large t (ps ++ values source ++ ss)
  Large-insert s ps ss source h fits =
      let ys = values source in
      let count : s.non_sso.size + length ys ≡ length ps + length ys + length ss + 1 =
        omega (arith, h.1.0.0, length-append (ps ++ ss) (0 ∷ []), length-append ps ss) in
      let (w, run, held, room, present) =
        vector_insert_any env safe copies s.non_sso ps ys (ss ++ 0 ∷ [])
          (subst (λ l. Holds s.non_sso l) (append_assoc ps ss (0 ∷ [])) h.1.0) h.1.1 h.1.2
          (rw count fits.0) (omega (arith, count, fits.1)) in
      (
        record s { non_sso = w },
        rw (vector_insert-values env (length ps) source, run) refl,
        (
          h.0,
          (subst (λ l. Holds w l) (sym (append_assoc (ps ++ ys) ss (0 ∷ []))) held, room, present),
        ),
      )

module _ (env : Env ℕ) (safe : NoFailure env) where
  pub Large-erase :
      (s : BasicString) (ps ms ss : List ℕ)
      → Large s (ps ++ ms ++ ss)
      → (t : BasicString) × (on_large (vector_erase env (length ps) (length ms)) s ≡ (ok tt, t))
        × Large t (ps ++ ss)
  Large-erase s ps ms ss h =
      let out = vector_erase env (length ps) (length ms) s.non_sso in
      let (run, held, room) =
        vector_erase_contents env s.non_sso ps ms (ss ++ 0 ∷ []) safe
          (subst (λ l. Holds s.non_sso l) (append_assoc (ps ++ ms) ss (0 ∷ [])) h.1.0) h.1.1 in
      let present = erase_present env s.non_sso ms (length ps) safe h.1.2 (length ms) in
      (
        record s { non_sso = out.1 },
        rw run refl,
        (h.0, (subst (λ l. Holds out.1 l) (sym (append_assoc ps ss (0 ∷ []))) held, room, present)),
      )
