-- ===== src/BasicString/History.antt =====
-- Sequences of operations on a string against the same edits of a list of characters.
use libpmemobj_cpp.Common.{
  ℕ, ◌+◌, min, ◌<◌, ◌≡◌, refl, subst, sym, ap, ◌∙◌, Bool-cases, inl, inr, true, false, ltb, if-true,
  if-false, ltb→le, List, [], ◌∷◌, ◌++◌, length, take, drop, take-append-drop, length-take,
  length-drop, length-append, arith, if◌then◌else◌,
}
use mathlib.Core.List.{append_assoc}
use libpmemobj_cpp.Common.Effect.{Result, ok, throws, out_of_range, Action}
use libpmemobj_cpp.Vector.{Env}
use libpmemobj_cpp.Vector.Cells.{At}
use libpmemobj_cpp.Vector.Content.{NoFailure}
use libpmemobj_cpp.BasicString.{BasicString, Source, values, size, sso_capacity, cdata}
use libpmemobj_cpp.BasicString.Modify.{
  assign, append, insert_at, insert, erase, replace_at, replace, shrink_to_fit,
}
use libpmemobj_cpp.BasicString.Content.{Text, GivesText}
use libpmemobj_cpp.BasicString.Blocks.{Fits, Fits-allowed}
use libpmemobj_cpp.BasicString.Rebuilding.{size-Text, cdata-Text, assign_contents}
use libpmemobj_cpp.BasicString.Edits.{OfChars, length-parts}
use libpmemobj_cpp.BasicString.Insertion.{insert_contents, append_contents}
use libpmemobj_cpp.BasicString.Erasure.{string_erase_contents}
use libpmemobj_cpp.BasicString.Replacement.{replace_contents}
use libpmemobj_cpp.BasicString.Sizes.{string_shrink_to_fit_contents}

pub data Operation : Type 0 where
  assigning : Source → Operation
  appending : Source → Operation
  inserting : ℕ → Source → Operation
  erasing : ℕ → ℕ → Operation
  replacing : ℕ → ℕ → Source → Operation
  shrinking : Operation

unfoldable pub perform : Env ℕ → Operation → Action BasicString (Unit {0})
unfolding assign append insert_at erase replace_at shrink_to_fit
perform env (assigning source) = assign env source
perform env (appending source) = append env source
perform env (inserting index source) = insert_at env index source
perform env (erasing index n) = erase env index n
perform env (replacing index n source) = replace_at env index n source
perform env shrinking = shrink_to_fit env

-- An edit at an index inside the list, or an exception
abbrev pub promised_at : ℕ → List ℕ → List ℕ → Result (Unit {0}) × List ℕ
promised_at index edited xs =
    if ltb (length xs) index then (throws out_of_range, xs) else (ok tt, edited)

-- What the operation returns and makes of a list.
unfoldable pub promised : Operation → List ℕ → Result (Unit {0}) × List ℕ
promised (assigning source) xs = (ok tt, values source)
promised (appending source) xs = (ok tt, xs ++ values source)
promised (inserting index source) xs =
    promised_at index (take index xs ++ values source ++ drop index xs) xs
promised (erasing index n) xs = promised_at index (take index xs ++ drop n (drop index xs)) xs
promised (replacing index n source) xs =
    promised_at index (take index xs ++ values source ++ drop n (drop index xs)) xs
promised shrinking xs = (ok tt, xs)

unfoldable pub perform_all :
    Env ℕ → List Operation → BasicString → List (Result (Unit {0})) × BasicString
unfolding perform
perform_all env [] s = ([], s)
perform_all env (o ∷ os) s =
    let (r, t) = perform env o s in let (rs, u) = perform_all env os t in (r ∷ rs, u)

unfoldable pub promised_all : List Operation → List ℕ → List (Result (Unit {0})) × List ℕ
unfolding promised
promised_all [] xs = ([], xs)
promised_all (o ∷ os) xs =
    let (r, ys) = promised o xs in let (rs, zs) = promised_all os ys in (r ∷ rs, zs)

-- Every text on the way fits.
unfoldable pub AllFit : Env ℕ → List Operation → List ℕ → Type 0
unfolding promised
AllFit env [] xs = Fits env (length xs)
AllFit env (o ∷ os) xs = Fits env (length xs) × AllFit env os (promised o xs).1

-- The string did what the list did.
abbrev Does : Result (Unit {0}) × BasicString → Result (Unit {0}) × List ℕ → Type 0
Does out spec = (out.0 ≡ spec.0) × Text out.1 spec.1

-- A list in three parts: before an index, the next `n` elements, and the rest.
three_parts :
    (index n : ℕ) (xs : List ℕ)
    → xs ≡ take index xs ++ take n (drop index xs) ++ drop n (drop index xs)
three_parts index n xs =
    sym (take-append-drop index xs)
    ∙ ap (λ l. take index xs ++ l) (sym (take-append-drop n (drop index xs)))
    ∙ sym (append_assoc (take index xs) (take n (drop index xs)) (drop n (drop index xs)))

module _ (env : Env ℕ) (safe : NoFailure env) (copies : OfChars env)
    (allowed : sso_capacity < env.max_size) (s : BasicString) (xs : List ℕ) (h : Text s xs) where
  -- An edit at an index, by what it does beyond the text and inside it
  at_index-Does :
      (index : ℕ) (edited : List ℕ) (out : Result (Unit {0}) × BasicString)
      → (ltb (length xs) index ≡ true → out ≡ (throws out_of_range, s))
      → (ltb (length xs) index ≡ false → GivesText out edited)
      → Does out (promised_at index edited xs)
  at_index-Does index edited out beyond inside = elim (Bool-cases (ltb (length xs) index)) [
    | inl b ↦
        subst (λ p. Does out p) (sym (if-true (throws out_of_range, xs) (ok tt, edited) b))
          (subst (λ o. Does o (throws out_of_range, xs)) (sym (beyond b)) (refl, h))
    | inr b ↦
        subst (λ p. Does out p) (sym (if-false (throws out_of_range, xs) (ok tt, edited) b))
          (inside b)
  ]

  Fits-inside :
      (index : ℕ) (edited : List ℕ)
      → Fits env (length (promised_at index edited xs).1)
      → ltb (length xs) index ≡ false
      → Fits env (length edited)
  Fits-inside index edited fits b =
      subst (λ (p : Result (Unit {0}) × List ℕ). Fits env (length p.1))
        (if-false (throws out_of_range, xs) (ok tt, edited) b) fits

  inserting-Does :
      (index : ℕ) (source : Source)
      → Fits env (length (promised (inserting index source) xs).1)
      → Does (insert_at env index source s) (promised (inserting index source) xs)
  unfolding insert_at promised
  inserting-Does index source fits =
      let ps = take index xs in
      let ss = drop index xs in
      let edited = ps ++ values source ++ ss in
      at_index-Does index edited (insert_at env index source s)
        (λ b.
          if-true (throws out_of_range, s) (insert env index source s) (rw (size-Text s xs h) b))
        (λ b.
          let at : length ps ≡ index =
            omega (arith, length-take index xs, ltb→le (length xs) index b) in
          let done =
            insert_contents env safe copies s ps ss source
              (subst (λ l. Text s l) (sym (take-append-drop index xs)) h)
              (subst (λ k. Fits env k) (length-parts ps (values source) ss)
                (Fits-inside index edited fits b)) in
          subst (λ o. GivesText o edited)
            (sym (
              if-false (throws out_of_range, s) (insert env index source s)
                (rw (size-Text s xs h) b)))
            (subst (λ k. GivesText (insert env k source s) edited) at done))

  -- The middle of three parts is what is left of `n` elements.
  middle :
      (index n : ℕ)
      → min n (length (take n (drop index xs)) + length (drop n (drop index xs)))
        ≡ length (take n (drop index xs))
  middle index n = omega (arith, length-take n (drop index xs), length-drop n (drop index xs))

  parted :
      (index n : ℕ) → Text s (take index xs ++ take n (drop index xs) ++ drop n (drop index xs))
  parted index n = subst (λ l. Text s l) (three_parts index n xs) h

  erasing-Does : (index n : ℕ) → Does (erase env index n s) (promised (erasing index n) xs)
  unfolding erase promised
  erasing-Does index n =
      let ps = take index xs in
      let ss = drop n (drop index xs) in
      at_index-Does index (ps ++ ss) (erase env index n s) (λ b. rw (size-Text s xs h, b) refl)
        (λ b.
          let at : length ps ≡ index =
            omega (arith, length-take index xs, ltb→le (length xs) index b) in
          subst (λ k. GivesText (erase env k n s) (ps ++ ss)) at
            (string_erase_contents env safe s ps (take n (drop index xs)) ss n (parted index n)
              (middle index n)))

  replacing-Does :
      (index n : ℕ) (source : Source)
      → Fits env (length (promised (replacing index n source) xs).1)
      → Does (replace_at env index n source s) (promised (replacing index n source) xs)
  unfolding replace_at promised
  replacing-Does index n source fits =
      let ps = take index xs in
      let ss = drop n (drop index xs) in
      let edited = ps ++ values source ++ ss in
      at_index-Does index edited (replace_at env index n source s)
        (λ b.
          if-true (throws out_of_range, s) (replace env index n source s) (rw (size-Text s xs h) b))
        (λ b.
          let at : length ps ≡ index =
            omega (arith, length-take index xs, ltb→le (length xs) index b) in
          let done =
            replace_contents env safe copies s ps (take n (drop index xs)) ss n source
              (parted index n) (middle index n)
              (subst (λ k. Fits env k) (length-parts ps (values source) ss)
                (Fits-inside index edited fits b))
              allowed in
          subst (λ o. GivesText o edited)
            (sym (
              if-false (throws out_of_range, s) (replace env index n source s)
                (rw (size-Text s xs h) b)))
            (subst (λ k. GivesText (replace env k n source s) edited) at done))

module _ (env : Env ℕ) (safe : NoFailure env) (copies : OfChars env)
    (allowed : sso_capacity < env.max_size) where
  perform-Does :
      (o : Operation) (s : BasicString) (xs : List ℕ)
      → Text s xs
      → Fits env (length xs)
      → Fits env (length (promised o xs).1)
      → Does (perform env o s) (promised o xs)
  unfolding perform promised
  perform-Does (assigning source) s xs h now fits =
      assign_contents env safe source s xs h (Fits-allowed env (length (values source)) fits)
  perform-Does (appending source) s xs h now fits =
      append_contents env safe copies s xs source h
        (subst (λ k. Fits env k) (length-append xs (values source)) fits)
  perform-Does (inserting index source) s xs h now fits =
      inserting-Does env safe copies allowed s xs h index source fits
  perform-Does (erasing index n) s xs h now fits =
      erasing-Does env safe copies allowed s xs h index n
  perform-Does (replacing index n source) s xs h now fits =
      replacing-Does env safe copies allowed s xs h index n source fits
  perform-Does shrinking s xs h now fits =
      (string_shrink_to_fit_contents env safe s xs h allowed (Fits-allowed env (length xs) now)).0

  AllFit-first : (os : List Operation) (xs : List ℕ) → AllFit env os xs → Fits env (length xs)
  unfolding AllFit
  AllFit-first [] xs h = h
  AllFit-first (o ∷ os) xs h = h.0

  perform_all-Does :
      (os : List Operation) (s : BasicString) (xs : List ℕ)
      → Text s xs
      → AllFit env os xs
      → ((perform_all env os s).0 ≡ (promised_all os xs).0)
        × Text (perform_all env os s).1 (promised_all os xs).1
  unfolding perform_all promised_all AllFit
  perform_all-Does [] s xs h fits = (refl, h)
  perform_all-Does (o ∷ os) s xs h fits =
      let (same, text) = perform-Does o s xs h fits.0 (AllFit-first os (promised o xs).1 fits.1) in
      let (rest, end) = perform_all-Does os (perform env o s).1 (promised o xs).1 text fits.1 in
      (λ i. same i ∷ rest i, end)

  -- A string that holds a text, under any sequence of assign, append, insert and replace, of a range
  -- or a count and a character, erase and shrink_to_fit, when no call of libpmemobj fails, a moved
  -- character stays as it is, a vector may have more than 23 elements and every text on the way fits
  -- one with its null character: each call returns or throws out_of_range as the same edit of a list of characters
  -- does; then size() is the length of the edited list, and the memory behind cdata() holds its
  -- characters and a null character.
  pub string_operations_refine :
      (os : List Operation) (s : BasicString) (xs : List ℕ)
      → Text s xs
      → AllFit env os xs
      → ((perform_all env os s).0 ≡ (promised_all os xs).0)
        × (size (perform_all env os s).1 ≡ length (promised_all os xs).1)
        × At (cdata (perform_all env os s).1) 0 ((promised_all os xs).1 ++ 0 ∷ [])
  string_operations_refine os s xs h fits =
      let (same, text) = perform_all-Does os s xs h fits in
      let t = (perform_all env os s).1 in
      (same, size-Text t (promised_all os xs).1 text, cdata-Text t (promised_all os xs).1 text)
