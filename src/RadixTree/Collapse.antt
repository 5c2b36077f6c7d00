-- ===== src/RadixTree/Collapse.antt =====
-- The node above an erased leaf, which goes away if only one of its subtrees is left.
use native.Mathlib.Decide.{ℕ_discrete}
use libpmemobj_cpp.Common.{
  ℕ, zero, suc, ◌+◌, ◌≤◌, ◌<◌, ◌≡◌, ◌≢◌, refl, ap, sym, ◌∙◌, subst, arith, true, false, not, ◌&&◌,
  if◌then◌else◌, ◌⊎◌, inl, inr, Bool-cases, Option-cases, Option, none, some,
}
use libpmemobj_cpp.Common.Cases.{some-injective}
use libpmemobj_cpp.RadixTree.{Leaf, slnodes, Tree, null, leaf, node, is_null}
use libpmemobj_cpp.RadixTree.Slices.{position}
use libpmemobj_cpp.RadixTree.Shape.{All, Agree, Below, IsShared}
use libpmemobj_cpp.RadixTree.Erase.{one_child, collapse}

module _ {V : Type 0} where
  IsRest : (ℕ → Tree V) → ℕ → ℕ → Tree V → Tree V → Type 0
  IsRest child i n only c =
      ((c ≡ only) × ((q : ℕ) → i ≤ q → q < i + n → is_null (child q) ≡ true))
      ⊎ ((is_null only ≡ true)
          × (j : ℕ) × (i ≤ j)
          × (j < i + n)
          × (c ≡ child j)
          × (is_null (child j) ≡ false)
          × ((q : ℕ) → i ≤ q → q < i + n → q ≢ j → is_null (child q) ≡ true))

  one_child-some :
      (child : ℕ → Tree V) (i n : ℕ) (only c : Tree V)
      → one_child child i n only ≡ some c
      → IsRest child i n only c
  unfolding one_child IsRest
  one_child-some child i zero only c e = inl (sym (some-injective e), λ q p r. absurd (omega arith))
  one_child-some child i (suc n) only c e =
      let first : is_null (child i) ≡ true
          → ((q : ℕ) → i + 1 ≤ q → q < i + 1 + n → is_null (child q) ≡ true)
          → (q : ℕ) → i ≤ q
          → q < i + suc n
          → is_null (child q) ≡ true =
        λ here others q p r. elim (ℕ_discrete i q) [
          | yes at ↦ ap (λ k. is_null (child k)) (sym at) ∙ here
          | no off ↦ others q (omega arith) (omega arith)
        ] in
      elim (Bool-cases (is_null (child i))) [
        | inl here ↦ elim (one_child-some child (i + 1) n only c (ground (arith, e, here))) [
          | inl (is, empty) ↦ inl (is, first here empty)
          | inr (no_only, j, low, high, is, some_j, others) ↦ inr (
            no_only,
            j,
            omega arith,
            omega arith,
            is,
            some_j,
            λ q p r off. elim (ℕ_discrete i q) [
              | yes at ↦ ap (λ k. is_null (child k)) (sym at) ∙ here
              | no past ↦ others q (omega arith) (omega arith) off
            ],
          )
        ]
        | inr here ↦
            let no_only : is_null only ≡ true = elim (Bool-cases (is_null only)) [
              | inl y ↦ y
              | inr y ↦ absurd (ground (arith, e, here, y))
            ] in
            elim (one_child-some child (i + 1) n (child i) c (ground (arith, e, here, no_only))) [
              | inl (is, empty) ↦ inr (
                no_only,
                i,
                omega arith,
                omega arith,
                is,
                here,
                λ q p r off. empty q (omega arith) (omega arith),
              )
              | inr (never, j, low, high, is, some_j, others) ↦ absurd (ground (arith, here, never))
            ]
      ]

  one_child-none :
      (child : ℕ → Tree V) (i n : ℕ) (only : Tree V)
      → one_child child i n only ≡ none
      → ((is_null only ≡ false) × (j : ℕ) × (i ≤ j) × (j < i + n) × (is_null (child j) ≡ false))
        ⊎ ((j k : ℕ) × (i ≤ j)
            × (j < k)
            × (k < i + n)
            × (is_null (child j) ≡ false)
            × (is_null (child k) ≡ false))
  unfolding one_child
  one_child-none child i zero only e = absurd (ground (arith, e))
  one_child-none child i (suc n) only e = elim (Bool-cases (is_null (child i))) [
    | inl here ↦ elim (one_child-none child (i + 1) n only (ground (arith, e, here))) [
      | inl (some_only, j, low, high, some_j) ↦ inl (some_only, j, omega arith, omega arith, some_j)
      | inr (j, k, low, apart, high, some_j, some_k) ↦
          inr (j, k, omega arith, apart, omega arith, some_j, some_k)
    ]
    | inr here ↦ elim (Bool-cases (is_null only)) [
      | inr some_only ↦ inl (some_only, i, omega arith, omega arith, here)
      | inl no_only ↦
          elim (one_child-none child (i + 1) n (child i) (ground (arith, e, here, no_only))) [
            | inl (some_i, k, low, high, some_k) ↦
                inr (i, k, omega arith, omega arith, omega arith, here, some_k)
            | inr (j, k, low, apart, high, some_j, some_k) ↦
                inr (j, k, omega arith, apart, omega arith, some_j, some_k)
          ]
    ]
  ]

  module _ (byte bit : ℕ) (entry : Tree V) (child : ℕ → Tree V) where
    -- A node from which a subtree was taken.
    pub record IsRemainder : Type 0 where
      pub half : (bit ≡ 4) ⊎ (bit ≡ 0)
      pub embedded :
          (entry ≡ null) ⊎ ((l : Leaf V) × (entry ≡ leaf l) × (l.key.size ≡ byte) × (bit ≡ 4))
      pub branches : (i : ℕ) → All (Below byte bit i) (child i)
      pub agreed :
          All
            (λ l. All (λ m. Agree (position byte bit) l.key m.key) (node byte bit entry child))
            (node byte bit entry child)

    -- The results of `collapse`: the node, with two subtrees at least, its entry, its only child, or
    -- null if nothing is left.
    abbrev pub IsCollapsed : Tree V → Type 0
    IsCollapsed t =
        ((t ≡ node byte bit entry child)
          × IsShared entry child
          × ((i : ℕ) × (i < slnodes) × (is_null (child i) ≡ false)))
        ⊎ ((t ≡ entry)
            × (is_null entry ≡ false)
            × ((q : ℕ) → q < slnodes → is_null (child q) ≡ true))
        ⊎ ((t ≡ null) × (is_null entry ≡ true) × ((q : ℕ) → q < slnodes → is_null (child q) ≡ true))
        ⊎ ((j : ℕ) × (j < slnodes)
            × (t ≡ child j)
            × (is_null (child j) ≡ false)
            × (is_null entry ≡ true)
            × ((q : ℕ) → q < slnodes → q ≢ j → is_null (child q) ≡ true))

    left : Option (Tree V) → Tree V
    left found = elim found [
      | none ↦ node byte bit entry child
      | some only ↦
          if not (is_null only) && not (is_null entry)
          then node byte bit entry child
          else if not (is_null entry)
          then entry
          else only
    ]

    left-none : one_child child 0 slnodes null ≡ none → IsCollapsed (left none)
    unfolding left
    left-none e = elim (one_child-none child 0 slnodes null e) [
      | inl (never, j, low, high, some_j) ↦ absurd (ground (arith, never))
      | inr (j, k, low, apart, high, some_j, some_k) ↦ inl (
        refl,
        inr (
          j,
          k,
          omega (arith, apart, high),
          omega (arith, high),
          omega (arith, apart),
          some_j,
          some_k,
        ),
        (j, omega (arith, apart, high), some_j),
      )
    ]

    left-some :
        (only : Tree V)
        → one_child child 0 slnodes null ≡ some only
        → IsCollapsed (left (some only))
    unfolding left IsRest
    left-some only e = elim (Bool-cases (is_null entry)) [
      | inl no_entry ↦
          let is : left (some only) ≡ only = ground (arith, no_entry) in
          elim (one_child-some child 0 slnodes null only e) [
            | inl (none_left, empty) ↦
                inr
                  (inr (inl (is ∙ none_left, no_entry, λ q p. empty q (omega arith) (omega arith))))
            | inr (_, j, low, high, here, some_j, others) ↦ inr (
                inr (
                  inr (
                    j,
                    omega arith,
                    is ∙ here,
                    some_j,
                    no_entry,
                    λ q p off. others q (omega arith) (omega arith) off,
                  )))
          ]
      | inr some_entry ↦ elim (one_child-some child 0 slnodes null only e) [
        | inl (none_left, empty) ↦
            let gone : is_null only ≡ true = ap is_null none_left in
            inr (
              inl (
                ground (arith, some_entry, gone),
                some_entry,
                λ q p. empty q (omega arith) (omega arith),
              ))
        | inr (_, j, low, high, here, some_j, others) ↦
            let there : is_null only ≡ false = ap is_null here ∙ some_j in
            inl (ground (arith, some_entry, there), inl some_entry, (j, omega arith, some_j))
      ]
    ]

    pub collapse_lem : IsCollapsed (collapse (node byte bit entry child))
    unfolding collapse left
    collapse_lem = elim (Option-cases (one_child child 0 slnodes null)) [
      | inl e ↦ subst (λ r. IsCollapsed (left r)) (sym e) (left-none e)
      | inr (only, e) ↦ subst (λ r. IsCollapsed (left r)) (sym e) (left-some only e)
    ]
