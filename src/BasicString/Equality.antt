-- ===== src/BasicString/Equality.antt =====
-- Two strings are equal as `operator==` says exactly if their texts are.
use libpmemobj_cpp.Common.{
  ℕ, zero, suc, ◌+◌, ◌<◌, ◌≡◌, refl, sym, ap, ◌∙◌, true, none, some, List, [], ◌∷◌, length, get_or,
  arith, ◌↔◌,
}
use libpmemobj_cpp.Vector.Cells.{At, At-front}
use libpmemobj_cpp.Vector.{Block}
use libpmemobj_cpp.StringView.{Chars, is_null, traits_compare}
use libpmemobj_cpp.StringView.Search.{traits_compare-Same, Same-traits_compare}
use libpmemobj_cpp.BasicString.{BasicString, size, cdata}
use libpmemobj_cpp.BasicString.Inspect.{chars, compare, equals}
use libpmemobj_cpp.BasicString.Content.{Text}
use libpmemobj_cpp.BasicString.Rebuilding.{size-Text, cdata-Text}

-- What a block reads as
abbrev reads : Block ℕ → Chars
reads c i = elim (c i) [ some ch ↦ ch | none ↦ 0 ]

At-reads :
    (c : Block ℕ) (i : ℕ) (xs : List ℕ) (k : ℕ)
    → At c i xs
    → k < length xs
    → reads c (i + k) ≡ get_or xs k 0
At-reads c i [] k h p = elim p [ ]
At-reads c i (x ∷ xs) zero h p = let start : i + 0 ≡ i = omega arith in ground (arith, start, h.0)
At-reads c i (x ∷ xs) (suc k) h p =
    let next : i + suc k ≡ i + 1 + k = omega arith in
    rw next (At-reads c (i + 1) xs k h.1 (omega arith))

list_ext :
    (xs ys : List ℕ)
    → length xs ≡ length ys
    → ((k : ℕ) → k < length xs → get_or xs k 0 ≡ get_or ys k 0)
    → xs ≡ ys
list_ext [] [] e h = refl
list_ext [] (y ∷ ys) e h = absurd (omega arith)
list_ext (x ∷ xs) [] e h = absurd (omega arith)
list_ext (x ∷ xs) (y ∷ ys) e h =
    let tails = list_ext xs ys (omega arith) (λ k p. h (suc k) (omega arith)) in
    λ i. h 0 (omega arith) i ∷ tails i

-- The test behind `operator==`
equals-true :
    (s t : BasicString)
    → equals s t ≡ true
    → (size s ≡ size t) × (is_null (traits_compare (chars s) 0 (chars t) 0 (size s)) ≡ true)
unfolding equals compare
equals-true s t h = ground arith

true-equals :
    (s t : BasicString)
    → size s ≡ size t
    → is_null (traits_compare (chars s) 0 (chars t) 0 (size s)) ≡ true
    → equals s t ≡ true
unfolding equals compare
true-equals s t e h = ground arith

-- `operator==` of two strings that hold texts is true exactly if the texts are equal.
pub string_equals_lem :
    (s t : BasicString) (xs ys : List ℕ) → Text s xs → Text t ys → (equals s t ≡ true) ↔ (xs ≡ ys)
string_equals_lem s t xs ys hs ht =
    let size_s = size-Text s xs hs in
    let size_t = size-Text t ys ht in
    let text_s = (At-front (cdata s) xs (0 ∷ []) (cdata-Text s xs hs)).0 in
    let text_t = (At-front (cdata t) ys (0 ∷ []) (cdata-Text t ys ht)).0 in
    (
      λ h.
          let (sizes, compared) = equals-true s t h in
          let same = traits_compare-Same (chars s) 0 (chars t) 0 (size s) compared in
          list_ext xs ys (omega (arith, sizes, size_s, size_t)) (λ k p.
            sym (At-reads (cdata s) 0 xs k text_s p)
            ∙ same k (omega (arith, size_s))
            ∙ At-reads (cdata t) 0 ys k text_t (omega (arith, sizes, size_s, size_t))),
      λ e.
          let lengths : length xs ≡ length ys = ap length e in
          true-equals s t (omega (arith, lengths, size_s, size_t)) (
            Same-traits_compare (chars s) 0 (chars t) 0 (size s) (λ k p.
              At-reads (cdata s) 0 xs k text_s (omega (arith, size_s))
              ∙ ap (λ l. get_or l k 0) e
              ∙ sym (At-reads (cdata t) 0 ys k text_t (omega (arith, size_s, lengths))))),
    )
