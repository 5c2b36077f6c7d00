-- ===== src/ConcurrentHashMap/Nodes.antt =====
-- The list of nodes of a bucket: `search_bucket` after the loop of `rehash_bucket` has divided the
-- list, and after a node was unlinked.
use libpmemobj_cpp.Common.{
  ℕ, ◌==◌, ◌≡◌, refl, sym, ap, ◌∙◌, inl, inr, bit_and, if◌then◌else◌, Bool, true, false, Bool-cases,
  Option, none, List, [], ◌∷◌, arith,
}
use libpmemobj_cpp.ConcurrentHashMap.{search_bucket, moved, kept, unlink}

-- Equal keys have one hash code, and the comparison is an equivalence.
pub record LawfulKeys {K : Type 0} (hasher : K → ℕ) (key_equal : K → K → Bool) : Type 0 where
  pub reflexive : (key : K) → key_equal key key ≡ true
  pub alike : (i j : K) → key_equal i j ≡ true → (key : K) → key_equal i key ≡ key_equal j key
  pub same_hash : (i j : K) → key_equal i j ≡ true → hasher i ≡ hasher j

joined :
    {K : Type 0} (hasher : K → ℕ) (key_equal : K → K → Bool) (laws : LawfulKeys hasher key_equal)
    (i j k : K)
    → key_equal j k ≡ true
    → key_equal i k ≡ key_equal i j
joined hasher key_equal laws i j k e = elim (Bool-cases (key_equal i k)) [
  | inl p ↦ p ∙ sym (laws.reflexive j) ∙ laws.alike j k e j ∙ sym (laws.alike i k p j)
  | inr p ↦ elim (Bool-cases (key_equal i j)) [
    | inl q ↦ laws.alike i j q k ∙ e ∙ sym q
    | inr q ↦ p ∙ sym q
  ]
]

-- The test of the loop of `rehash_bucket`
abbrev pub goes : ℕ → ℕ → ℕ → Bool
goes mask h c = bit_and c mask == h

module _ {K V : Type 0} (hasher : K → ℕ) (key_equal : K → K → Bool)
    (laws : LawfulKeys hasher key_equal) where
  abbrev pub search : K → List (K × V) → Option V
  search = search_bucket hasher key_equal

  -- Every node of bucket `b` has a hash code that `place` puts there, and no key is there twice.
  abbrev pub AreIn : (ℕ → ℕ) → ℕ → List (K × V) → Type 0
  AreIn place b [] = Unit
  AreIn place b (n ∷ next) =
      (place (hasher n.0) ≡ b) × (search n.0 next ≡ none) × AreIn place b next

  search-alike : (i j : K) (ns : List (K × V)) → key_equal i j ≡ true → search i ns ≡ search j ns
  unfolding search_bucket
  search-alike i j [] e = refl
  search-alike i j (n ∷ next) e = rw (laws.alike i j e n.0, search-alike i j next e) refl

  pub search-moved :
      (mask h : ℕ) (key : K) (ns : List (K × V))
      → search key (moved hasher key_equal mask h ns)
        ≡ (if goes mask h (hasher key) then search key ns else none)
  unfolding search_bucket moved
  search-moved mask h key [] = ground arith
  search-moved mask h key (n ∷ next) =
      let rest = search-moved mask h key next in
      elim (Bool-cases (key_equal key n.0)) [
        | inl e ↦
            let hash = ap (goes mask h) (laws.same_hash key n.0 e) in
            elim (Bool-cases (goes mask h (hasher n.0))) [
              | inl g ↦ rw (g, hash ∙ g, e) refl
              | inr g ↦ rw (g, hash ∙ g) (rest ∙ rw (hash ∙ g) refl)
            ]
        | inr e ↦ elim (Bool-cases (goes mask h (hasher n.0))) [
          | inl g ↦ rw (g, e) rest
          | inr g ↦ rw (g, e) rest
        ]
      ]

  pub search-kept :
      (mask h : ℕ) (key : K) (ns : List (K × V))
      → search key (kept hasher key_equal mask h ns)
        ≡ (if goes mask h (hasher key) then none else search key ns)
  unfolding search_bucket kept
  search-kept mask h key [] = ground arith
  search-kept mask h key (n ∷ next) =
      let rest = search-kept mask h key next in
      elim (Bool-cases (key_equal key n.0)) [
        | inl e ↦
            let hash = ap (goes mask h) (laws.same_hash key n.0 e) in
            elim (Bool-cases (goes mask h (hasher n.0))) [
              | inl g ↦ rw (g, hash ∙ g) (rest ∙ rw (hash ∙ g) refl)
              | inr g ↦ rw (g, hash ∙ g, e) refl
            ]
        | inr e ↦ elim (Bool-cases (goes mask h (hasher n.0))) [
          | inl g ↦ rw (g, e) rest
          | inr g ↦ rw (g, e) rest
        ]
      ]

  pub AreIn-map :
      (place after : ℕ → ℕ) (b a : ℕ) (ns : List (K × V))
      → ((c : ℕ) → place c ≡ b → after c ≡ a)
      → AreIn place b ns
      → AreIn after a ns
  AreIn-map place after b a [] to h = tt
  AreIn-map place after b a (n ∷ next) to h =
      (to (hasher n.0) h.0, h.1, AreIn-map place after b a next to h.2)

  pub AreIn-moved :
      (mask h : ℕ) (place after : ℕ → ℕ) (b a : ℕ) (ns : List (K × V))
      → ((c : ℕ) → place c ≡ b → goes mask h c ≡ true → after c ≡ a)
      → AreIn place b ns
      → AreIn after a (moved hasher key_equal mask h ns)
  unfolding moved
  AreIn-moved mask h place after b a [] to all = tt
  AreIn-moved mask h place after b a (n ∷ next) to all =
      let rest = AreIn-moved mask h place after b a next to all.2 in
      elim (Bool-cases (goes mask h (hasher n.0))) [
        | inl e ↦
            rw e (to (hasher n.0) all.0 e, search-moved mask h n.0 next ∙ rw (e, all.1) refl, rest)
        | inr e ↦ rw e rest
      ]

  pub AreIn-kept :
      (mask h : ℕ) (place after : ℕ → ℕ) (b a : ℕ) (ns : List (K × V))
      → ((c : ℕ) → place c ≡ b → goes mask h c ≡ false → after c ≡ a)
      → AreIn place b ns
      → AreIn after a (kept hasher key_equal mask h ns)
  unfolding kept
  AreIn-kept mask h place after b a [] to all = tt
  AreIn-kept mask h place after b a (n ∷ next) to all =
      let rest = AreIn-kept mask h place after b a next to all.2 in
      elim (Bool-cases (goes mask h (hasher n.0))) [
        | inl e ↦ rw e rest
        | inr e ↦
            rw e (to (hasher n.0) all.0 e, search-kept mask h n.0 next ∙ rw (e, all.1) refl, rest)
      ]

  pub search-unlink :
      (place : ℕ → ℕ) (b : ℕ) (key other : K) (ns : List (K × V))
      → AreIn place b ns
      → search other (unlink hasher key_equal key ns)
        ≡ (if key_equal other key then none else search other ns)
  unfolding search_bucket unlink
  search-unlink place b key other [] all = ground arith
  search-unlink place b key other (n ∷ next) all =
      let rest = search-unlink place b key other next all.2 in
      elim (Bool-cases (key_equal key n.0)) [
        | inl e ↦ elim (Bool-cases (key_equal other key)) [
          | inl o ↦ rw (e, o) (search-alike other n.0 next (laws.alike other key o n.0 ∙ e) ∙ all.1)
          | inr o ↦
              let differs : key_equal other n.0 ≡ false =
                joined hasher key_equal laws other key n.0 e ∙ o in
              rw (e, o, differs) refl
        ]
        | inr e ↦ elim (Bool-cases (key_equal other n.0)) [
          | inl o ↦
              let differs : key_equal other key ≡ false = elim (Bool-cases (key_equal other key)) [
                | inl q ↦ q ∙ sym o ∙ laws.alike other key q n.0 ∙ e
                | inr q ↦ q
              ] in
              rw (e, o, differs) refl
          | inr o ↦ rw (e, o) rest
        ]
      ]

  pub AreIn-unlink :
      (place : ℕ → ℕ) (b : ℕ) (key : K) (ns : List (K × V))
      → AreIn place b ns
      → AreIn place b (unlink hasher key_equal key ns)
  unfolding unlink
  AreIn-unlink place b key [] all = tt
  AreIn-unlink place b key (n ∷ next) all = elim (Bool-cases (key_equal key n.0)) [
    | inl e ↦ rw e all.2
    | inr e ↦ rw e (
      all.0,
      search-unlink place b key n.0 next all.2 ∙ ground (arith, all.1),
      AreIn-unlink place b key next all.2,
    )
  ]
