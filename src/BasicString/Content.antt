-- ===== src/BasicString/Content.antt =====
-- The text that a string holds, and what the private functions do to it when libpmemobj does not
-- fail.
use libpmemobj_cpp.Common.{
  ℕ, zero, suc, ◌+◌, ◌-◌, ◌≤◌, ◌≡◌, refl, subst, sym, ap, ◌⊎◌, min, true, false, none, some, List,
  [], ◌∷◌, ◌++◌, map, length, replicate, arith, length-replicate,
}
use native.Mathlib.Decide.{dec_lt, dec_le}
use libpmemobj_cpp.Common.Effect.{Result, ok, Action}
use libpmemobj_cpp.Snapshot.{Range, conditional_add_to_tx}
use libpmemobj_cpp.Vector.{Block, Vector, Env}
use libpmemobj_cpp.Vector.Cells.{write, create_all, read_all, At, create_all-extends}
use libpmemobj_cpp.Vector.Insert.{insert_range, insert_fill}
use libpmemobj_cpp.Vector.Modify.{assign_range, assign_fill}
use libpmemobj_cpp.Vector.Content.{Holds, NoFailure}
use libpmemobj_cpp.BasicString.{BasicString, Source, range, fill, values, get_size, sso_capacity}
use libpmemobj_cpp.BasicString.Representation.{
  add_range, add_sso_to_tx, vector_assign, vector_insert,
}

-- The vector holds the text and the null character behind it.
abbrev pub HoldsText : Vector ℕ → List ℕ → Type 0
HoldsText v xs = Holds v (xs ++ 0 ∷ []) × (v.size ≤ v.capacity) × (v.has_data ≡ true)

-- The string holds the text in its array, or in its vector; both end in a null character.
abbrev pub Small : BasicString → List ℕ → Type 0
Small s xs =
    (s.sso ≡ true)
    × (s.sso_size ≡ length xs)
    × (length xs ≤ sso_capacity)
    × At s.sso_data 0 (xs ++ 0 ∷ [])

abbrev pub Large : BasicString → List ℕ → Type 0
Large s xs = (s.sso ≡ false) × HoldsText s.non_sso xs

abbrev pub Text : BasicString → List ℕ → Type 0
Text s xs = Small s xs ⊎ Large s xs

-- The call returned, and the string holds the text.
abbrev pub GivesText : Result (Unit {0}) × BasicString → List ℕ → Type 0
GivesText out xs = (out.0 ≡ ok tt) × Text out.1 xs

pub run-GivesText :
    (out : Result (Unit {0}) × BasicString) (t : BasicString) (xs : List ℕ)
    → out ≡ (ok tt, t)
    → Text t xs
    → GivesText out xs
run-GivesText out t xs e h = subst (λ o. GivesText o xs) (sym e) (refl, h)

pub get_size-length : (source : Source) → get_size source ≡ length (values source)
unfolding get_size
get_size-length (range xs) = refl
get_size-length (fill count ch) = sym (length-replicate count ch)

map-replicate : (n ch : ℕ) → replicate n (some ch) ≡ map some (replicate n ch)
map-replicate zero ch = refl
map-replicate (suc n) ch = ap (λ l. some ch ∷ l) (map-replicate n ch)

-- Both overloads of the vector's functions do the same with the same characters.
pub vector_insert-values :
    (env : Env ℕ) (idx : ℕ) (source : Source)
    → vector_insert env idx source ≡ insert_range env idx (values source)
unfolding insert_range insert_fill
vector_insert-values env idx (range xs) = refl
vector_insert-values env idx (fill count ch) =
    rw (length-replicate count ch, map-replicate count ch)

pub vector_assign-values :
    (env : Env ℕ) (source : Source) (v : Vector ℕ)
    → vector_assign env source v ≡ assign_range env (values source) v
unfolding assign_range assign_fill
vector_assign-values env (range xs) v = refl
vector_assign-values env (fill count ch) v = rw (map-replicate count ch)

pub copied-At :
    (c : Block ℕ) (i : ℕ) (xs : List ℕ)
    → At c i xs
    → map (λ o. elim o [ some ch ↦ ch | none ↦ 0 ]) (read_all i (length xs) c) ≡ xs
unfolding read_all
copied-At c i [] h = refl
copied-At c i (x ∷ xs) h = ground (arith, h.0, copied-At c (i + 1) xs h.1)

-- A null character written behind the text
pub terminated :
    (c : Block ℕ) (n : ℕ) (xs : List ℕ)
    → n ≡ length xs
    → At c 0 xs
    → At (write n (some 0) c) 0 (xs ++ 0 ∷ [])
unfolding create_all
terminated c n xs e h = create_all-extends c 0 n xs (0 ∷ []) (omega (arith, e)) h

-- The string after an action that only adds to the transaction
abbrev pub OnlyAdds : Action BasicString (Unit {0}) → BasicString → Type 0
OnlyAdds m s = (log : List Range) × (m s ≡ (ok tt, record s { added = log }))

module _ (env : Env ℕ) (safe : NoFailure env) where
  pub add_range-OnlyAdds : (r : Range) (s : BasicString) → OnlyAdds (add_range env r) s
  unfolding add_range conditional_add_to_tx
  add_range-OnlyAdds r s = elim (dec_le 1 r.count) [
    | no p ↦ (s.added, ground arith)
    | yes p ↦ (r ∷ s.added, ground (arith, safe.2 r))
  ]

  pub add_sso_to_tx-OnlyAdds : (i n : ℕ) (s : BasicString) → OnlyAdds (add_sso_to_tx env i n) s
  unfolding add_sso_to_tx
  add_sso_to_tx-OnlyAdds i n s =
      let initialized = s.sso_size + 1 - i in
      let first : Range = record { first = i; count = min initialized n; snapshot = true } in
      let rest : Range = record {
        first = s.sso_size + 1;
        count = n - initialized;
        snapshot = false;
      } in
      let (log, e) = add_range-OnlyAdds first s in
      let (log', e') = add_range-OnlyAdds rest (record s { added = log }) in
      elim (dec_lt initialized n) [
        | yes p ↦ (log', ground (arith, e, e'))
        | no p ↦ (log, ground (arith, e))
      ]
