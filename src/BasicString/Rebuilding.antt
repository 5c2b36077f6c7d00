-- ===== src/BasicString/Rebuilding.antt =====
-- A string that changes between its array and its vector keeps its text.
use libpmemobj_cpp.Common.{
  ℕ, ◌+◌, ◌≤◌, ◌<◌, ◌≡◌, ◌∙◌, ◌⊎◌, inl, inr, Bool-cases, true, false, leb, leb→le, not, ◌&&◌, List,
  [], ◌∷◌, ◌++◌, length, arith, length-append,
}
use libpmemobj_cpp.Common.Words.{sub64}
use libpmemobj_cpp.Common.Effect.{ok, Action, ◌>>◌, run-then}
use libpmemobj_cpp.Vector.{Env}
use libpmemobj_cpp.Vector.Cells.{At, At-front}
use libpmemobj_cpp.Vector.Content.{NoFailure}
use libpmemobj_cpp.BasicString.{
  BasicString, Source, range, values, get_size, size, capacity, sso_capacity, cdata, transaction,
}
use libpmemobj_cpp.BasicString.Representation.{
  destroy_data, allocate, initialize, replace_content, copied, rebuild, sso_to_large, large_to_sso,
}
use libpmemobj_cpp.BasicString.Modify.{assign}
use libpmemobj_cpp.BasicString.Content.{
  Small, Large, Text, GivesText, run-GivesText, get_size-length, copied-At,
}
use libpmemobj_cpp.BasicString.Building.{build-Text, destroy_data_lem, assign_large_data-Large}

pub Text-Small : (s : BasicString) (xs : List ℕ) → Text s xs → s.sso ≡ true → Small s xs
Text-Small s xs (inl h) short = h
Text-Small s xs (inr h) short = cc (h.0)

pub Text-Large : (s : BasicString) (xs : List ℕ) → Text s xs → s.sso ≡ false → Large s xs
Text-Large s xs (inl h) long = cc (h.0)
Text-Large s xs (inr h) long = h

pub size-Text : (s : BasicString) (xs : List ℕ) → Text s xs → size s ≡ length xs
unfolding size
size-Text s xs (inl h) = ground (arith, h.0, h.1)
size-Text s xs (inr h) = ground (arith, h.0, h.1.0.0, length-append xs (0 ∷ []))

-- The text and the null character behind it
pub cdata-Text : (s : BasicString) (xs : List ℕ) → Text s xs → At (cdata s) 0 (xs ++ 0 ∷ [])
unfolding cdata
cdata-Text s xs (inl h) = rw h.0 h.3
cdata-Text s xs (inr h) = rw h.0 h.1.0.1

-- What fits the capacity of a string leaves room for the null character in its vector.
capacity-Large :
    (s : BasicString) (xs : List ℕ)
    → Large s xs
    → (n : ℕ) → leb n (capacity s) ≡ true
    → n + 1 ≤ s.non_sso.capacity
unfolding capacity
capacity-Large s xs h n fits =
    let within : n ≤ capacity s = leb→le n (capacity s) fits in
    let is_large : capacity s ≡ sub64 s.non_sso.capacity 1 = rw h.0 in
    omega (arith, within, is_large, h.1.0.0, h.1.1, length-append xs (0 ∷ []))

-- The body of a transaction that returns has the same effect in the transaction.
pub transaction-run :
    (tx : Action BasicString (Unit {0})) (s t : BasicString)
    → tx (record s { added = [] }) ≡ (ok tt, t)
    → transaction tx s ≡ (ok tt, t)
transaction-run tx s t e = ground (arith, e)

module _ (env : Env ℕ) (safe : NoFailure env) where
  rebuild-Text :
      (n : ℕ) (s : BasicString) (xs : List ℕ)
      → Text s xs
      → length xs ≤ n
      → n + 1 ≤ env.max_size
      → (t : BasicString) × (rebuild env n s ≡ (ok tt, t))
        × ((n ≤ sso_capacity) × Small t xs ⊎ (sso_capacity < n) × Large t xs)
  rebuild-Text n s xs h fits allowed =
      let tmp : copied env (size s) (cdata s) ≡ xs =
        rw (size-Text s xs h)
          (copied-At (cdata s) 0 xs (At-front (cdata s) xs (0 ∷ []) (cdata-Text s xs h)).0) in
      let (u, freed) = destroy_data_lem env safe s in
      let (t, run, text) = build-Text env safe n u (range xs) fits allowed in
      (
        t,
        rw tmp (
            run-then (destroy_data env) (do allocate env n; initialize env (range xs)) freed ∙ run),
        text,
      )

  pub sso_to_large-Large :
      (n : ℕ) (s : BasicString) (xs : List ℕ)
      → Text s xs
      → length xs ≤ n
      → sso_capacity < n
      → n + 1 ≤ env.max_size
      → (t : BasicString) × (sso_to_large env n s ≡ (ok tt, t)) × Large t xs
  unfolding sso_to_large
  sso_to_large-Large n s xs h fits p allowed =
      let (t, run, text) = rebuild-Text n s xs h fits allowed in
      elim text [ inl (q, small) ↦ absurd (omega arith) | inr (q, large) ↦ (t, run, large) ]

  pub large_to_sso-Small :
      (s : BasicString) (xs : List ℕ)
      → Text s xs
      → length xs ≤ sso_capacity
      → sso_capacity < env.max_size
      → (t : BasicString) × (large_to_sso env s ≡ (ok tt, t)) × Small t xs
  unfolding large_to_sso
  large_to_sso-Small s xs h p allowed =
      let len = size-Text s xs h in
      let (t, run, text) = rebuild-Text (size s) s xs h (omega (arith, len)) (omega (arith, len)) in
      elim text [ inl (q, small) ↦ (t, run, small) | inr (q, large) ↦ absurd (omega (arith, len)) ]

  replace_content-Text :
      (source : Source) (s : BasicString) (xs : List ℕ)
      → Text s xs
      → length (values source) + 1 ≤ env.max_size
      → (t : BasicString) × (replace_content env source s ≡ (ok tt, t)) × Text t (values source)
  unfolding replace_content
  replace_content-Text source s xs h allowed =
      let n = get_size source in
      let len = get_size-length source in
      let (u, freed) = destroy_data_lem env safe s in
      let (t, run, text) =
        build-Text env safe n u source (omega (arith, len)) (omega (arith, len)) in
      let anew : (t : BasicString) × ((do destroy_data env; allocate env n; initialize env source) s
            ≡ (ok tt, t))
          × Text t (values source) =
        (
          t,
          run-then (destroy_data env) (do allocate env n; initialize env source) freed ∙ run,
          elim text [ inl (q, small) ↦ inl small | inr (q, large) ↦ inr large ],
        ) in
      elim h [
        | inl small ↦
            let test : not s.sso && leb n (capacity s) ≡ false = ground (arith, small.0) in
            rw test anew
        | inr large ↦ elim (Bool-cases (leb n (capacity s))) [
          | inr more ↦
              let test : not s.sso && leb n (capacity s) ≡ false = ground (arith, more) in
              rw test anew
          | inl less ↦
              let test : not s.sso && leb n (capacity s) ≡ true = ground (arith, large.0, less) in
              let (w, filled, text') =
                assign_large_data-Large env safe s source large.0 large.1.2
                  (omega (arith, len, capacity-Large s xs large n less)) in
              (w, rw test filled, inr text')
        ]
      ]

  -- `assign`, in both overloads: the string holds what was assigned.
  pub assign_contents :
      (source : Source) (s : BasicString) (xs : List ℕ)
      → Text s xs
      → length (values source) + 1 ≤ env.max_size
      → GivesText (assign env source s) (values source)
  unfolding assign
  assign_contents source s xs h allowed =
      let (t, run, text) = replace_content-Text source (record s { added = [] }) xs h allowed in
      run-GivesText (assign env source s) t (values source)
        (transaction-run (replace_content env source) s t run) text
