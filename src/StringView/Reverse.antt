-- ===== src/StringView/Reverse.antt =====
-- The searches that test one position after another.
use libpmemobj_cpp.Common.{
  Bool-cases, ℕ, zero, suc, ◌-◌, ◌≤◌, ◌<◌, ◌≡◌, ◌⊎◌, inl, inr, refl, sym, ◌∙◌, subst, min,
  if◌then◌else◌, Bool, true, false, arith, ap,
}
use native.Mathlib.Decide.{dec_le}
use libpmemobj_cpp.StringView.{
  Chars, View, npos, is_null, traits_compare, rfind_loop, rfind, none_of, last_not_of_loop,
  find_last_not_of,
}
use libpmemobj_cpp.StringView.Search.{
  Same, Occurs, traits_compare-Same, Same-traits_compare, traits_find-Found,
}

-- The result of a search from `pos` down to 0.
abbrev Down : (ℕ → Bool) → ℕ → ℕ → Type 0
Down b pos r =
    ((r ≡ npos) × ((p : ℕ) → p ≤ pos → b p ≡ false))
    ⊎ ((r ≤ pos) × (b r ≡ true) × ((p : ℕ) → r < p → p ≤ pos → b p ≡ false))

Down-zero : (b : ℕ → Bool) → Down b 0 (if b 0 then 0 else npos)
Down-zero b = elim (Bool-cases (b 0)) [
  | inl e ↦
      subst (Down b 0) (sym (ap (λ t. if t then 0 else npos) e))
        (inr (omega arith, e, λ p q q'. absurd (omega arith)))
  | inr e ↦
      subst (Down b 0) (sym (ap (λ t. if t then 0 else npos) e))
        (inl (refl, λ p q. ground (arith, e)))
]

Down-suc :
    (b : ℕ → Bool) (pos r : ℕ)
    → Down b pos r
    → Down b (suc pos) (if b (suc pos) then suc pos else r)
Down-suc b pos r h = elim (Bool-cases (b (suc pos))) [
  | inl e ↦
      subst (Down b (suc pos)) (sym (ap (λ t. if t then suc pos else r) e))
        (inr (omega arith, e, λ p q q'. absurd (omega arith)))
  | inr e ↦ subst (Down b (suc pos)) (sym (ap (λ t. if t then suc pos else r) e)) (elim h [
    | inl (nowhere, none_below) ↦ inl (
      nowhere,
      λ p q. elim (dec_le p pos) [
        | yes low ↦ none_below p low
        | no top ↦ subst (λ m. b m ≡ false) (omega arith) e
      ],
    )
    | inr (low, is, none_above) ↦ inr (
      omega arith,
      is,
      λ p q q'. elim (dec_le p pos) [
        | yes below ↦ none_above p q below
        | no top ↦ subst (λ m. b m ≡ false) (omega arith) e
      ],
    )
  ])
]

rfind_loop-Down :
    (v : View) (s : Chars) (count pos : ℕ)
    → Down (λ p. is_null (traits_compare v.chars p s 0 count)) pos (rfind_loop v s count pos)
unfolding rfind_loop
rfind_loop-Down v s count zero = Down-zero (λ p. is_null (traits_compare v.chars p s 0 count))
rfind_loop-Down v s count (suc pos) =
    Down-suc (λ p. is_null (traits_compare v.chars p s 0 count)) pos (rfind_loop v s count pos)
      (rfind_loop-Down v s count pos)

last_not_of_loop-Down :
    (v : View) (s : Chars) (count pos : ℕ)
    → Down (λ p. none_of s count (v.chars p)) pos (last_not_of_loop v s count pos)
unfolding last_not_of_loop
last_not_of_loop-Down v s count zero = Down-zero (λ p. none_of s count (v.chars p))
last_not_of_loop-Down v s count (suc pos) =
    Down-suc (λ p. none_of s count (v.chars p)) pos (last_not_of_loop v s count pos)
      (last_not_of_loop-Down v s count pos)

not-Same :
    (v : View) (s : Chars) (count p : ℕ)
    → is_null (traits_compare v.chars p s 0 count) ≡ false
    → ¬ Same v.chars p s 0 count
not-Same v s count p e h = ground (arith, Same-traits_compare v.chars p s 0 count h, e)

-- `rfind(s, pos, count)`: either it returns `npos` and the string does not occur within the view at
-- or below `pos`; or it returns the last position at or below `pos` at which the string occurs
-- within the view.
pub rfind_last :
    (v : View) (s : Chars) (count pos : ℕ)
    → ((rfind v s pos count ≡ npos) × ((p : ℕ) → p ≤ pos → ¬ Occurs v s count p))
      ⊎ ((rfind v s pos count ≤ pos)
          × Occurs v s count (rfind v s pos count)
          × ((p : ℕ) → rfind v s pos count < p → p ≤ pos → ¬ Occurs v s count p))
unfolding rfind
rfind_last v s count pos = elim (dec_le count v.size) [
  | no large ↦ inl (ground arith, λ p q occurs. absurd (omega (arith, occurs.0)))
  | yes fits ↦
      let top = min (v.size - count) pos in
      let result : rfind v s pos count ≡ rfind_loop v s count top = ground arith in
      elim (rfind_loop-Down v s count top) [
        | inl (nowhere, none_below) ↦ inl (
          result ∙ nowhere,
          λ p q occurs. not-Same v s count p (none_below p (omega (arith, occurs.0))) occurs.1,
        )
        | inr (low, is, none_above) ↦ inr (
          omega (arith, result),
          (
            omega (arith, result),
            subst (λ m. Same v.chars m s 0 count) (sym result)
                (traits_compare-Same v.chars (rfind_loop v s count top) s 0 count is),
          ),
          λ p q q' occurs.
              not-Same v s count p (none_above p (omega (arith, result)) (omega (arith, occurs.0)))
                occurs.1,
        )
      ]
]

-- A character among the first `count` of `s`.
abbrev pub Among : Chars → ℕ → ℕ → Type 0
Among s count c = (k : ℕ) × (k < count) × (s k ≡ c)

pub none_of-true : (s : Chars) (count c : ℕ) → none_of s count c ≡ true → ¬ Among s count c
unfolding none_of
none_of-true s count c e (k, p, is) = elim (traits_find-Found s 0 count c) [
  | inl (nowhere, absent) ↦ absent k (omega arith) (omega arith) is
  | inr (r, there, _, _, _, _) ↦ ground (arith, there, e)
]

pub none_of-false : (s : Chars) (count c : ℕ) → none_of s count c ≡ false → Among s count c
unfolding none_of
none_of-false s count c e = elim (traits_find-Found s 0 count c) [
  | inl (nowhere, absent) ↦ absurd (ground (arith, nowhere, e))
  | inr (r, there, low, high, is, _) ↦ (r, omega arith, is)
]

-- `find_last_not_of(s, pos, count)` on a view that is not empty: either it returns `npos` and every
-- character at or below `pos` is among those of the string; or it returns the last position at or
-- below `pos` in the view whose character is not among them.
find_last_not_of_lem :
    (v : View) (s : Chars) (count pos : ℕ)
    → 0 < v.size
    → ((find_last_not_of v s pos count ≡ npos)
        × ((p : ℕ) → p ≤ pos → p < v.size → Among s count (v.chars p)))
      ⊎ ((find_last_not_of v s pos count ≤ pos)
          × (find_last_not_of v s pos count < v.size)
          × (¬ Among s count (v.chars (find_last_not_of v s pos count)))
          × ((p : ℕ)
              → find_last_not_of v s pos count < p
              → p ≤ pos
              → p < v.size
              → Among s count (v.chars p)))
unfolding find_last_not_of
find_last_not_of_lem v s count pos some_char =
    let top = min pos (v.size - 1) in
    let result : find_last_not_of v s pos count ≡ last_not_of_loop v s count top = ground arith in
    elim (last_not_of_loop-Down v s count top) [
      | inl (nowhere, all_below) ↦ inl (
        result ∙ nowhere,
        λ p q q'. none_of-false s count (v.chars p) (all_below p (omega arith)),
      )
      | inr (low, is, all_above) ↦ inr (
        omega (arith, result),
        omega (arith, result),
        subst (λ m. ¬ Among s count (v.chars m)) (sym result)
            (none_of-true s count (v.chars (last_not_of_loop v s count top)) is),
        λ p q q' q''.
            none_of-false s count (v.chars p) (all_above p (omega (arith, result)) (omega arith)),
      )
    ]
