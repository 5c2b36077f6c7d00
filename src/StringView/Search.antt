-- ===== src/StringView/Search.antt =====
-- What the searches of a view find.
use libpmemobj_cpp.Common.{
  Bool-cases, ℕ, zero, suc, ◌+◌, ◌-◌, ◌^◌, ◌≤◌, ◌<◌, ◌≡◌, ◌≢◌, ◌⊎◌, inl, inr, refl, sym, subst,
  true, false, Option, none, some, arith,
}
use native.Mathlib.Decide.{dec_le, dec_lt, ℕ_discrete}
use libpmemobj_cpp.Common.Words.{add64}
use libpmemobj_cpp.StringView.{
  Chars, View, npos, is_null, traits_find, traits_compare, find_loop, find,
}

-- The `n` characters of `d` from `i` on are those of `s` from `j` on.
abbrev pub Same : Chars → ℕ → Chars → ℕ → ℕ → Type 0
Same d i s j n = (k : ℕ) → k < n → d (i + k) ≡ s (j + k)

traits_compare_step :
    (d : Chars) (i : ℕ) (s : Chars) (j n : ℕ)
    → is_null (traits_compare d i s j (suc n)) ≡ true
    → (d i ≡ s j) × (is_null (traits_compare d (i + 1) s (j + 1) n) ≡ true)
unfolding traits_compare
traits_compare_step d i s j n h = elim (ℕ_discrete (d i) (s j)) [
  | yes e ↦ (e, ground (arith, h, e))
  | no e ↦ ground (arith, h, e)
]

pub traits_compare-Same :
    (d : Chars) (i : ℕ) (s : Chars) (j n : ℕ)
    → is_null (traits_compare d i s j n) ≡ true
    → Same d i s j n
unfolding traits_compare
traits_compare-Same d i s j zero h k p = elim p [ ]
traits_compare-Same d i s j (suc n) h zero p = ground (arith, (traits_compare_step d i s j n h).0)
traits_compare-Same d i s j (suc n) h (suc k) p = ground (
  arith,
  traits_compare-Same d (i + 1) s (j + 1) n (traits_compare_step d i s j n h).1 k (omega arith),
)

pub Same-traits_compare :
    (d : Chars) (i : ℕ) (s : Chars) (j n : ℕ)
    → Same d i s j n
    → is_null (traits_compare d i s j n) ≡ true
unfolding traits_compare
Same-traits_compare d i s j zero h = refl
Same-traits_compare d i s j (suc n) h =
    let first : d i ≡ s j = ground (arith, h 0) in
    let rest : is_null (traits_compare d (i + 1) s (j + 1) n) ≡ true =
      Same-traits_compare d (i + 1) s (j + 1) n (λ k p. ground (arith, h (suc k))) in
    ground (arith, first, rest)

-- What `char_traits::find` returns.
abbrev pub Found : Chars → ℕ → ℕ → ℕ → Option ℕ → Type 0
Found d i n c o =
    ((o ≡ none) × ((k : ℕ) → i ≤ k → k < i + n → d k ≢ c))
    ⊎ ((r : ℕ) × (o ≡ some r)
        × (i ≤ r)
        × (r < i + n)
        × (d r ≡ c)
        × ((k : ℕ) → i ≤ k → k < r → d k ≢ c))

pub traits_find-Found : (d : Chars) (i n c : ℕ) → Found d i n c (traits_find d i n c)
unfolding traits_find
traits_find-Found d i zero c = inl (refl, λ k p q. absurd (omega arith))
traits_find-Found d i (suc n) c = elim (ℕ_discrete (d i) c) [
  | yes e ↦ inr (i, ground (arith, e), omega arith, omega arith, e, λ k p q. absurd (omega arith))
  | no e ↦ elim (traits_find-Found d (i + 1) n c) [
    | inl (none_there, absent) ↦ inl (
      ground (arith, e, none_there),
      λ k p q. elim (ℕ_discrete i k) [
        | yes same ↦ subst (λ m. d m ≢ c) same e
        | no differ ↦ absent k (omega arith) (omega arith)
      ],
    )
    | inr (r, there, low, high, is, before) ↦ inr (
      r,
      ground (arith, e, there),
      omega arith,
      omega arith,
      is,
      λ k p q. elim (ℕ_discrete i k) [
        | yes same ↦ subst (λ m. d m ≢ c) same e
        | no differ ↦ before k (omega arith) q
      ],
    )
  ]
]

module _ (v : View) (s : Chars) (count : ℕ) where
  -- A position of the view at which `s` stands, within the view.
  abbrev pub Occurs : ℕ → Type 0
  Occurs p = (p + count ≤ v.size) × Same v.chars p s 0 count

  -- The result of a search from `pos` up.
  abbrev pub FirstFrom : ℕ → ℕ → Type 0
  FirstFrom pos r =
      ((r ≡ npos) × ((p : ℕ) → pos ≤ p → ¬ Occurs p))
      ⊎ ((pos ≤ r)
          × (r < v.size)
          × Same v.chars r s 0 count
          × ((p : ℕ) → pos ≤ p → p < r → ¬ Occurs p))

  -- The search goes on behind a position with the first character, where `s` does not stand.
  FirstFrom-skip :
      (pos i r : ℕ)
      → pos ≤ i
      → ((k : ℕ) → pos ≤ k → k < i → v.chars k ≢ s 0)
      → 0 < count
      → is_null (traits_compare v.chars i s 0 count) ≡ false
      → FirstFrom (i + 1) r
      → FirstFrom pos r
  FirstFrom-skip pos i r low before some_char differs h =
      let skipped : (p : ℕ) → pos ≤ p → p < i + 1 → ¬ Occurs p = λ p q q' occurs.
        elim (ℕ_discrete i p) [
          | yes same ↦
              let there : Same v.chars i s 0 count =
                subst (λ m. Same v.chars m s 0 count) (sym same) occurs.1 in
              ground (arith, Same-traits_compare v.chars i s 0 count there, differs)
          | no other ↦ before p q (omega arith) (ground (arith, occurs.1 0 some_char))
        ] in
      elim h [
        | inl (nowhere, absent) ↦ inl (
          nowhere,
          λ p q occurs. elim (dec_lt p (i + 1)) [
            | yes near ↦ skipped p q near occurs
            | no far ↦ absent p (omega arith) occurs
          ],
        )
        | inr (from, inside, there, absent) ↦ inr (
          omega arith,
          inside,
          there,
          λ p q q' occurs. elim (dec_lt p (i + 1)) [
            | yes near ↦ skipped p q near occurs
            | no far ↦ absent p (omega arith) q' occurs
          ],
        )
      ]

  find_loop-FirstFrom :
      (fuel pos : ℕ)
      → 0 < count
      → count ≤ 2 ^ 63
      → v.size < 2 ^ 63
      → v.size < fuel + pos
      → pos ≤ v.size
      → FirstFrom pos (find_loop v s count fuel pos)
  unfolding find_loop
  find_loop-FirstFrom zero pos some_char bound small enough inside = absurd (omega arith)
  find_loop-FirstFrom (suc fuel) pos some_char bound small enough inside =
      let no_wrap : add64 pos count ≡ pos + count = omega arith in
      elim (dec_le (pos + count) v.size) [
        | no beyond ↦ inl (ground (arith, no_wrap), λ p q occurs. absurd (omega (arith, occurs.0)))
        | yes within ↦ elim (traits_find-Found v.chars pos (v.size - pos) (s 0)) [
          | inl (none_there, absent) ↦ inl (
            ground (arith, no_wrap, none_there),
            λ p q occurs.
                absent p q (omega (arith, occurs.0)) (ground (arith, occurs.1 0 some_char)),
          )
          | inr (r, there, low, high, is, before) ↦
              elim (Bool-cases (is_null (traits_compare v.chars r s 0 count))) [
                | inl same ↦
                    let result : find_loop v s count (suc fuel) pos ≡ r =
                      ground (arith, no_wrap, there, same) in
                    subst (λ m. FirstFrom pos m) (sym result)
                      (inr (
                        low,
                        omega arith,
                        traits_compare-Same v.chars r s 0 count same,
                        λ p q q' occurs. before p q q' (ground (arith, occurs.1 0 some_char)),
                      ))
                | inr differs ↦
                    let result : find_loop v s count (suc fuel) pos
                        ≡ find_loop v s count fuel (r + 1) =
                      ground (arith, no_wrap, there, differs) in
                    subst (λ m. FirstFrom pos m) (sym result)
                      (FirstFrom-skip pos r (find_loop v s count fuel (r + 1)) low before some_char
                        differs
                        (find_loop-FirstFrom fuel (r + 1) some_char bound small (omega arith)
                          (omega arith)))
              ]
        ]
      ]

  -- `find(s, pos, count)`, for a string of at least one and at most 2^63 characters, and a view of
  -- less than 2^63: either it returns `npos` and the string does not occur from `pos` on within the
  -- view; or it returns a position from `pos` on inside the view, where the string stands in memory,
  -- and the string does not occur within the view between `pos` and the result.
  pub find_first :
      (pos : ℕ)
      → 0 < count
      → count ≤ 2 ^ 63
      → v.size < 2 ^ 63
      → ((find v s pos count ≡ npos) × ((p : ℕ) → pos ≤ p → ¬ Occurs p))
        ⊎ ((pos ≤ find v s pos count)
            × (find v s pos count < v.size)
            × Same v.chars (find v s pos count) s 0 count
            × ((p : ℕ) → pos ≤ p → p < find v s pos count → ¬ Occurs p))
  unfolding find
  find_first pos some_char bound small = elim (dec_le pos v.size) [
    | no beyond ↦ inl (ground arith, λ p q occurs. absurd (omega (arith, occurs.0)))
    | yes inside ↦
        let result : find v s pos count ≡ find_loop v s count (v.size - pos + 1) pos =
          ground arith in
        subst (λ m. FirstFrom pos m) (sym result)
          (find_loop-FirstFrom (v.size - pos + 1) pos some_char bound small (omega arith) inside)
  ]
