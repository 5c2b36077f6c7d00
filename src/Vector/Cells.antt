-- ===== src/Vector/Cells.antt =====
-- Loops over the slots of a block, and what they leave where.
use libpmemobj_cpp.Common.{
  ℕ, zero, suc, ◌+◌, ◌≤◌, ◌<◌, ◌≡◌, ◌⊎◌, inl, refl, subst, ◌∙◌, ◌==◌, if◌then◌else◌, Option, none,
  some, List, [], ◌∷◌, ◌++◌, map, length, arith,
}
use libpmemobj_cpp.Vector.{Block}

module _ {A : Type 0} where
  abbrev pub write : ℕ → Option A → Block A → Block A
  write i a c j = if i == j then a else c j

  -- `for (; ...; ++dest) create(dest, ...)`, from a list of sources.
  unfoldable pub create_all : ℕ → List (Option A) → Block A → Block A
  create_all dest [] c = c
  create_all dest (o ∷ os) c = create_all (dest + 1) os (write dest o c)

  -- `destroy` on `n` slots from `i` on
  unfoldable pub destroy_all : ℕ → ℕ → Block A → Block A
  destroy_all i zero c = c
  destroy_all i (suc n) c = destroy_all (i + 1) n (write i none c)

  -- The contents of `n` slots from `i` on.
  unfoldable pub read_all : ℕ → ℕ → Block A → List (Option A)
  read_all i zero c = []
  read_all i (suc n) c = c i ∷ read_all (i + 1) n c

  -- The slots from `i` on hold the elements `xs`.
  abbrev pub At : Block A → ℕ → List A → Type 0
  At c i [] = Unit {0}
  At c i (x ∷ xs) = (c i ≡ some x) × At c (i + 1) xs

  -- The two blocks agree on `n` slots from `i` on.
  abbrev pub Agree : Block A → Block A → ℕ → ℕ → Type 0
  Agree c c' i n = (j : ℕ) → i ≤ j → j < i + n → c' j ≡ c j

  pub At-Agree :
      (c c' : Block A) (i : ℕ) (xs : List A) → Agree c c' i (length xs) → At c i xs → At c' i xs
  At-Agree c c' i [] h a = tt
  At-Agree c c' i (x ∷ xs) h a = (
    h i (omega arith) (omega arith) ∙ a.0,
    At-Agree c c' (i + 1) xs (λ j p q. h j (omega arith) (omega arith)) a.1,
  )

  pub At-append :
      (c : Block A) (i : ℕ) (xs ys : List A)
      → At c i xs
      → At c (i + length xs) ys
      → At c i (xs ++ ys)
  At-append c i [] ys hx hy = subst (λ k. At c k ys) (omega arith) hy
  At-append c i (x ∷ xs) ys hx hy =
      (hx.0, At-append c (i + 1) xs ys hx.1 (subst (λ k. At c k ys) (omega arith) hy))

  pub At-split :
      (c : Block A) (i : ℕ) (xs ys : List A)
      → At c i (xs ++ ys)
      → At c i xs × At c (i + length xs) ys
  At-split c i [] ys h = (tt, subst (λ k. At c k ys) (omega arith) h)
  At-split c i (x ∷ xs) ys h =
      let (hx, hy) = At-split c (i + 1) xs ys h.1 in
      ((h.0, hx), subst (λ k. At c k ys) (omega arith) hy)

  pub create_all-outside :
      (d : ℕ) (os : List (Option A)) (c : Block A) (j : ℕ)
      → (j < d) ⊎ (d + length os ≤ j)
      → create_all d os c j ≡ c j
  unfolding create_all
  create_all-outside d [] c j h = refl
  create_all-outside d (o ∷ os) c j h =
      ground (arith, create_all-outside (d + 1) os (write d o c) j)

  pub create_all-At : (d : ℕ) (xs : List A) (c : Block A) → At (create_all d (map some xs) c) d xs
  unfolding create_all
  create_all-At d [] c = tt
  create_all-At d (x ∷ xs) c = (
    ground (arith, create_all-outside (d + 1) (map some xs) (write d (some x) c) d),
    create_all-At (d + 1) xs (write d (some x) c),
  )

  pub destroy_all-outside :
      (i n : ℕ) (c : Block A) (j : ℕ) → (j < i) ⊎ (i + n ≤ j) → destroy_all i n c j ≡ c j
  unfolding destroy_all
  destroy_all-outside i zero c j h = refl
  destroy_all-outside i (suc n) c j h =
      ground (arith, destroy_all-outside (i + 1) n (write i none c) j)

  pub read_all-At :
      (c : Block A) (i : ℕ) (xs : List A) → At c i xs → read_all i (length xs) c ≡ map some xs
  unfolding read_all
  read_all-At c i [] h = refl
  read_all-At c i (x ∷ xs) h = ground (arith, read_all-At c (i + 1) xs h.1)

  -- Creating behind a run of elements extends it.
  pub create_all-extends :
      (c : Block A) (i d : ℕ) (xs ys : List A)
      → d ≡ i + length xs
      → At c i xs
      → At (create_all d (map some ys) c) i (xs ++ ys)
  create_all-extends c i d xs ys e h =
      At-append (create_all d (map some ys) c) i xs ys
        (At-Agree c (create_all d (map some ys) c) i xs
          (λ j p q. create_all-outside d (map some ys) c j (inl (omega (arith, e)))) h)
        (subst (λ k. At (create_all d (map some ys) c) k ys) e (create_all-At d ys c))

  pub At-front :
      (c : Block A) (xs ys : List A) → At c 0 (xs ++ ys) → At c 0 xs × At c (length xs) ys
  At-front c xs ys h =
      let (hx, hy) = At-split c 0 xs ys h in (hx, subst (λ k. At c k ys) (omega arith) hy)
