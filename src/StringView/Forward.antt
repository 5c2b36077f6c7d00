-- ===== src/StringView/Forward.antt =====
-- The searches for the first character of a set, and the comparison of views.
use libpmemobj_cpp.Common.{
  Bool-cases, ℕ, zero, suc, ◌+◌, ◌-◌, ◌^◌, ◌≤◌, ◌<◌, ◌≡◌, ◌≢◌, ◌⊎◌, inl, inr, refl, sym, ◌∙◌, subst,
  min, ◌==◌, ltb, if◌then◌else◌, true, arith,
}
use native.Mathlib.Decide.{dec_le, dec_lt, ℕ_discrete}
use libpmemobj_cpp.StringView.{
  Chars, View, npos, is_null, traits_compare, find_char, first_of_loop, find_first_of, none_of,
  not_of_loop, find_first_not_of, compare, equals,
}
use libpmemobj_cpp.StringView.Search.{Same, find_first, traits_compare-Same, Same-traits_compare}
use libpmemobj_cpp.StringView.Reverse.{Among, none_of-true, none_of-false}

-- `find(ch, pos)` returns the first index from `pos` on with the character, or `npos`.
find_char_lem :
    (v : View) (ch pos : ℕ)
    → v.size < 2 ^ 63
    → ((find_char v ch pos ≡ npos) × ((p : ℕ) → pos ≤ p → p < v.size → v.chars p ≢ ch))
      ⊎ ((pos ≤ find_char v ch pos)
          × (find_char v ch pos < v.size)
          × (v.chars (find_char v ch pos) ≡ ch)
          × ((p : ℕ) → pos ≤ p → p < find_char v ch pos → v.chars p ≢ ch))
unfolding find_char
find_char_lem v ch pos small =
    let only : (p : ℕ) → v.chars p ≡ ch → Same v.chars p (λ _. ch) 0 1 =
      λ p e k q. ground (arith, e) in
    elim (find_first v (λ _. ch) 1 pos (omega arith) (omega arith) small) [
      | inl (nowhere, absent) ↦ inl (nowhere, λ p q q' e. absent p q (omega arith, only p e))
      | inr (low, high, there, absent) ↦ inr (
        low,
        high,
        ground (arith, there 0 (omega arith)),
        λ p q q' e. absent p q q' (omega arith, only p e),
      )
    ]

-- What is known of `first_of` after the characters of `s` below `j`.
abbrev FirstOf : View → Chars → ℕ → ℕ → ℕ → Type 0
FirstOf v s pos j r =
    ((p : ℕ) → pos ≤ p → p < v.size → p < r → ¬ Among s j (v.chars p))
    × ((r ≡ npos) ⊎ ((pos ≤ r) × (r < v.size) × Among s j (v.chars r)))

Among-suc : (s : Chars) (j c : ℕ) → Among s (j + 1) c → Among s j c ⊎ (s j ≡ c)
Among-suc s j c (k, p, is) = elim (dec_lt k j) [
  | yes q ↦ inl (k, q, is)
  | no q ↦ inr (subst (λ m. s m ≡ c) (omega arith) is)
]

Among-wider : (s : Chars) (j c : ℕ) → Among s j c → Among s (j + 1) c
Among-wider s j c (k, p, is) = (k, omega arith, is)

-- The next character of `s` does not come before `r`.
FirstOf-keep :
    (v : View) (s : Chars) (pos j r : ℕ)
    → FirstOf v s pos j r
    → ((p : ℕ) → pos ≤ p → p < v.size → p < r → v.chars p ≢ s j)
    → FirstOf v s pos (j + 1) r
FirstOf-keep v s pos j r (absent, cases) later = (
  (λ p q q' q'' among. elim (Among-suc s j (v.chars p) among) [
    | inl old ↦ absent p q q' q'' old
    | inr new ↦ later p q q' q'' (sym new)
  ]),
  elim cases [
    | inl nowhere ↦ inl nowhere
    | inr (low, high, there) ↦ inr (low, high, Among-wider s j (v.chars r) there)
  ],
)

-- The next character of `s` comes first at `f`.
FirstOf-take :
    (v : View) (s : Chars) (pos j r f : ℕ)
    → FirstOf v s pos j r
    → f ≤ r
    → pos ≤ f
    → f < v.size
    → v.chars f ≡ s j
    → ((p : ℕ) → pos ≤ p → p < f → v.chars p ≢ s j)
    → FirstOf v s pos (j + 1) f
FirstOf-take v s pos j r f (absent, _) near low high is before = (
  (λ p q q' q'' among. elim (Among-suc s j (v.chars p) among) [
    | inl old ↦ absent p q q' (omega arith) old
    | inr new ↦ before p q q'' (sym new)
  ]),
  inr (low, high, (j, omega arith, sym is)),
)

FirstOf-step :
    (v : View) (s : Chars) (pos j r : ℕ)
    → v.size < 2 ^ 63
    → FirstOf v s pos j r
    → FirstOf v s pos (j + 1) (
        if find_char v (s j) pos == npos
        then r
        else if ltb (find_char v (s j) pos) r
        then find_char v (s j) pos
        else r)
FirstOf-step v s pos j r small h = elim (find_char_lem v (s j) pos small) [
  | inl (nowhere, absent) ↦
      subst (FirstOf v s pos (j + 1)) (ground (arith, nowhere))
        (FirstOf-keep v s pos j r h (λ p q q' q''. absent p q q'))
  | inr (low, high, is, before) ↦ elim (dec_lt (find_char v (s j) pos) r) [
    | yes near ↦
        subst (FirstOf v s pos (j + 1)) (ground arith)
          (FirstOf-take v s pos j r (find_char v (s j) pos) h (omega arith) low high is before)
    | no far ↦
        subst (FirstOf v s pos (j + 1)) (ground arith)
          (FirstOf-keep v s pos j r h (λ p q q' q''. before p q (omega arith)))
  ]
]

first_of_loop-FirstOf :
    (v : View) (s : Chars) (pos j n r : ℕ)
    → v.size < 2 ^ 63
    → FirstOf v s pos j r
    → FirstOf v s pos (j + n) (first_of_loop v s pos j n r)
unfolding first_of_loop
first_of_loop-FirstOf v s pos j zero r small h = subst (λ m. FirstOf v s pos m r) (omega arith) h
first_of_loop-FirstOf v s pos j (suc n) r small h =
    subst (λ m. FirstOf v s pos m (first_of_loop v s pos j (suc n) r)) (omega arith)
      (first_of_loop-FirstOf v s pos (j + 1) n _ small (FirstOf-step v s pos j r small h))

-- `find_first_of(s, pos, count)`, on a view of less than 2^63 characters: either it returns `npos`
-- and no character from `pos` on is among those of the string; or it returns the first position
-- from `pos` on in the view whose character is among them.
pub find_first_of_lem :
    (v : View) (s : Chars) (pos count : ℕ)
    → v.size < 2 ^ 63
    → ((find_first_of v s pos count ≡ npos)
        × ((p : ℕ) → pos ≤ p → p < v.size → ¬ Among s count (v.chars p)))
      ⊎ ((pos ≤ find_first_of v s pos count)
          × (find_first_of v s pos count < v.size)
          × Among s count (v.chars (find_first_of v s pos count))
          × ((p : ℕ) → pos ≤ p → p < find_first_of v s pos count → ¬ Among s count (v.chars p)))
unfolding find_first_of
find_first_of_lem v s pos count small =
    let start : FirstOf v s pos 0 npos =
      ((λ p q q' q'' among. absurd (omega (arith, among.1))), inl refl) in
    let (absent, cases) =
      subst (λ m. FirstOf v s pos m (find_first_of v s pos count)) (omega arith)
        (first_of_loop-FirstOf v s pos 0 count npos small start) in
    elim cases [
      | inl nowhere ↦ inl (nowhere, λ p q q'. absent p q q' (omega (arith, nowhere)))
      | inr (low, high, there) ↦ inr (low, high, there, λ p q q'. absent p q (omega arith) q')
    ]

not_of_loop_lem :
    (v : View) (s : Chars) (count pos n : ℕ)
    → ((not_of_loop v s count pos n ≡ npos)
        × ((p : ℕ) → pos ≤ p → p < pos + n → Among s count (v.chars p)))
      ⊎ ((pos ≤ not_of_loop v s count pos n)
          × (not_of_loop v s count pos n < pos + n)
          × (¬ Among s count (v.chars (not_of_loop v s count pos n)))
          × ((p : ℕ) → pos ≤ p → p < not_of_loop v s count pos n → Among s count (v.chars p)))
unfolding not_of_loop
not_of_loop_lem v s count pos zero = inl (refl, λ p q q'. absurd (omega arith))
not_of_loop_lem v s count pos (suc n) = elim (Bool-cases (none_of s count (v.chars pos))) [
  | inl e ↦
      let result : not_of_loop v s count pos (suc n) ≡ pos = ground (arith, e) in
      inr (
        omega (arith, result),
        omega (arith, result),
        subst (λ m. ¬ Among s count (v.chars m)) (sym result)
            (none_of-true s count (v.chars pos) e),
        λ p q q'. absurd (omega (arith, result)),
      )
  | inr e ↦
      let result : not_of_loop v s count pos (suc n) ≡ not_of_loop v s count (pos + 1) n =
        ground (arith, e) in
      let first = none_of-false s count (v.chars pos) e in
      let here : (p : ℕ) → pos ≤ p → p < pos + 1 → Among s count (v.chars p) =
        λ p q q'. subst (λ m. Among s count (v.chars m)) (omega arith) first in
      elim (not_of_loop_lem v s count (pos + 1) n) [
        | inl (nowhere, all) ↦ inl (
          result ∙ nowhere,
          λ p q q'. elim (dec_lt p (pos + 1)) [
            | yes near ↦ here p q near
            | no far ↦ all p (omega arith) (omega arith)
          ],
        )
        | inr (low, high, is, all) ↦ inr (
          omega (arith, result),
          omega (arith, result),
          subst (λ m. ¬ Among s count (v.chars m)) (sym result) is,
          λ p q q'. elim (dec_lt p (pos + 1)) [
            | yes near ↦ here p q near
            | no far ↦ all p (omega arith) (omega (arith, result))
          ],
        )
      ]
]

-- `find_first_not_of(s, pos, count)`: either it returns `npos` and every character of the view from
-- `pos` on is among those of the string; or it returns the first position from `pos` on in the view
-- whose character is not among them.
find_first_not_of_lem :
    (v : View) (s : Chars) (pos count : ℕ)
    → ((find_first_not_of v s pos count ≡ npos)
        × ((p : ℕ) → pos ≤ p → p < v.size → Among s count (v.chars p)))
      ⊎ ((pos ≤ find_first_not_of v s pos count)
          × (find_first_not_of v s pos count < v.size)
          × (¬ Among s count (v.chars (find_first_not_of v s pos count)))
          × ((p : ℕ) → pos ≤ p → p < find_first_not_of v s pos count → Among s count (v.chars p)))
unfolding find_first_not_of
find_first_not_of_lem v s pos count = elim (dec_le v.size pos) [
  | yes beyond ↦ inl (ground arith, λ p q q'. absurd (omega arith))
  | no inside ↦
      let result : find_first_not_of v s pos count ≡ not_of_loop v s count pos (v.size - pos) =
        ground arith in
      elim (not_of_loop_lem v s count pos (v.size - pos)) [
        | inl (nowhere, all) ↦ inl (result ∙ nowhere, λ p q q'. all p q (omega arith))
        | inr (low, high, is, all) ↦ inr (
          omega (arith, result),
          omega (arith, result),
          subst (λ m. ¬ Among s count (v.chars m)) (sym result) is,
          λ p q q'. all p q (omega (arith, result)),
        )
      ]
]

-- `operator==` of two views is true exactly if they have the same size and the same characters.
pub equals_lem :
    (v w : View)
    → ((equals v w ≡ true) → (v.size ≡ w.size) × Same v.chars 0 w.chars 0 v.size)
      × ((v.size ≡ w.size) → Same v.chars 0 w.chars 0 v.size → equals v w ≡ true)
unfolding equals compare
equals_lem v w =
    let n = min v.size w.size in
    (
      λ h.
          let size : v.size ≡ w.size = elim (ℕ_discrete v.size w.size) [
            | yes e ↦ e
            | no e ↦ absurd (ground (arith, h, e))
          ] in
          let all : n ≡ v.size = omega (arith, size) in
          let same : is_null (traits_compare v.chars 0 w.chars 0 n) ≡ true =
            ground (arith, h, size) in
          (
            size,
            subst (Same v.chars 0 w.chars 0) all (traits_compare-Same v.chars 0 w.chars 0 n same),
          ),
      λ size h.
          let all : v.size ≡ n = omega (arith, size) in
          let same : is_null (traits_compare v.chars 0 w.chars 0 n) ≡ true =
            Same-traits_compare v.chars 0 w.chars 0 n (subst (Same v.chars 0 w.chars 0) all h) in
          ground (arith, same, size),
    )
