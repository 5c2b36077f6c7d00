-- ===== src/ConcurrentHashMap/Home.antt =====
-- The bucket in which the nodes of a hash code stand, by the buckets that have been rehashed.
use libpmemobj_cpp.Common.{
  ℕ, zero, suc, ◌-◌, ◌%◌, ◌^◌, ◌≤◌, ◌<◌, ◌≡◌, ◌≢◌, refl, sym, ap, ◌∙◌, inl, inr, if◌then◌else◌,
  Bool, true, false, Bool-cases, if-true, if-false, arith,
}
use libpmemobj_cpp.Common.Bits.{two_pow_add, two_pow_pos}
use native.Mathlib.Nat.{pow-le-pow_right, mod-mod_of_dvd, mod-eq_of_lt, dvd-mul_right}
use native.Mathlib.Decide.{ℕ_discrete, dec_lt}
use libpmemobj_cpp.ConcurrentHashMap.{set_at}

pub two_pow_mono : (a b : ℕ) → a ≤ b → 2 ^ a ≤ 2 ^ b
two_pow_mono a b h = pow-le-pow_right {n = 2} (omega arith) {i = a} {j = b} h

-- With `2 ^ k` buckets of which `settled` have their nodes: the bucket of the longest suffix of the
-- hash code that is settled.
unfoldable pub home : (ℕ → Bool) → ℕ → ℕ → ℕ
home settled zero c = 0
home settled (suc k) c =
    let below = home settled k c in let b = c % 2 ^ suc k in if settled b then b else below

low_bits : (w k c : ℕ) → w ≤ k → c % 2 ^ k % 2 ^ w ≡ c % 2 ^ w
low_bits w k c h =
    mod-mod_of_dvd (2 ^ w) c
      (rw (two_pow_add w (k - w) k (omega arith)) (dvd-mul_right (2 ^ w) (2 ^ (k - w))))

pub home-settled :
    (settled : ℕ → Bool) (k c : ℕ)
    → settled (c % 2 ^ suc k) ≡ true
    → home settled (suc k) c ≡ c % 2 ^ suc k
unfolding home
home-settled settled k c h = if-true _ _ h

home-unsettled :
    (settled : ℕ → Bool) (k c : ℕ)
    → settled (c % 2 ^ suc k) ≡ false
    → home settled (suc k) c ≡ home settled k c
unfolding home
home-unsettled settled k c h = if-false _ _ h

-- A bucket that is not settled is the home of nothing.
pub home-is_settled :
    (settled : ℕ → Bool) (k c b : ℕ) → 0 < b → settled b ≡ false → home settled k c ≢ b
unfolding home
home-is_settled settled zero c b pos e h = omega arith
home-is_settled settled (suc k) c b pos e h = elim (Bool-cases (settled (c % 2 ^ suc k))) [
  | inl t ↦ ground (arith, ap settled (sym (home-settled settled k c t) ∙ h))
  | inr f ↦ home-is_settled settled k c b pos e (sym (home-unsettled settled k c f) ∙ h)
]

-- More buckets change no home, while the new ones are not settled.
pub home-more :
    (settled : ℕ → Bool) (k c n : ℕ)
    → suc k ≤ n
    → ((b : ℕ) → 2 ^ suc k ≤ b → settled b ≡ false)
    → home settled n c ≡ home settled (suc k) c
home-more settled k c zero level fresh = absurd (omega arith)
home-more settled k c (suc n) level fresh = elim (dec_lt k n) [
  | no last ↦ ap (λ m. home settled (suc m) c) (omega arith)
  | yes more ↦
      let b = c % 2 ^ suc n in
      elim (Bool-cases (settled b)) [
        | inl e ↦
            let small : b < 2 ^ suc k = ground (arith, e, fresh b) in
            let same : c % 2 ^ suc k ≡ b =
              sym (low_bits (suc k) (suc n) c level) ∙ mod-eq_of_lt small in
            home-settled settled n c e
            ∙ sym same
            ∙ sym (home-settled settled k c (ap settled same ∙ e))
        | inr e ↦ home-unsettled settled n c e ∙ home-more settled k c n more fresh
      ]
]

pub set_at-same {ℓ} : {A : Type ℓ} (i : ℕ) (x : A) (f : ℕ → A) → set_at i x f i ≡ x
set_at-same i x f = if-true x (f i) (ground arith)

pub set_at-other {ℓ} :
    {A : Type ℓ} (i : ℕ) (x : A) (f : ℕ → A) (j : ℕ) → j ≢ i → set_at i x f j ≡ f j
set_at-other i x f j h = if-false x (f j) (ground (arith, h))

-- Bucket `h`, of which the highest bit is bit `j`, is settled by taking nodes from the bucket
-- without that bit, which is settled.
module _ (settled : ℕ → Bool) (j h : ℕ) (low : 2 ^ j ≤ h) (high : h < 2 ^ suc j)
    (fresh : settled h ≡ false) (parent : settled (h % 2 ^ j) ≡ true) where
  kept_bits : (k : ℕ) → j < k → h % 2 ^ k ≡ h
  kept_bits k level = mod-eq_of_lt (omega (arith, high, two_pow_mono (suc j) k level))

  -- A hash code that ends in `h` goes to the parent when it comes to the level of `h`.
  falls : (k c : ℕ) → j ≤ k → c % 2 ^ suc k ≡ h → home settled k c ≡ h % 2 ^ j
  unfolding home
  falls zero c level ends = omega arith
  falls (suc k) c level ends =
      let shorter : c % 2 ^ suc k ≡ h % 2 ^ suc k =
        sym (low_bits (suc k) (suc (suc k)) c (omega arith)) ∙ ap (λ (n : ℕ). n % 2 ^ suc k) ends in
      elim (dec_lt k j) [
        | yes top ↦
            let at : suc k ≡ j = omega arith in
            let here : c % 2 ^ suc k ≡ h % 2 ^ j = shorter ∙ ap (λ n. h % 2 ^ n) at in
            home-settled settled k c (ap settled here ∙ parent) ∙ here
        | no above ↦
            let here : c % 2 ^ suc k ≡ h = shorter ∙ kept_bits (suc k) (omega arith) in
            home-unsettled settled k c (ap settled here ∙ fresh) ∙ falls k c (omega arith) here
      ]

  top_bit : (k c : ℕ) → c % 2 ^ k ≡ h → (j < k) × (c % 2 ^ suc j ≡ h)
  top_bit k c e =
      let level : j < k = elim (dec_lt j k) [
        | yes l ↦ l
        | no g ↦ absurd (omega (arith, low, e, two_pow_mono k j (omega arith), two_pow_pos k))
      ] in
      (
        level,
        sym (low_bits (suc j) k c level)
            ∙ ap (λ (n : ℕ). n % 2 ^ suc j) e
            ∙ kept_bits (suc j) (omega arith),
      )

  pub home_stays :
      (k c : ℕ)
      → (c % 2 ^ suc j ≡ h → home settled k c ≢ h % 2 ^ j)
      → home (set_at h true settled) k c ≡ home settled k c
  unfolding home
  home_stays zero c other = refl
  home_stays (suc k) c other =
      let b = c % 2 ^ suc k in
      let after = set_at h true settled in
      elim (Bool-cases (settled b)) [
        | inl e ↦ home-settled after k c (ground (arith, e)) ∙ sym (home-settled settled k c e)
        | inr e ↦
            let below = home-unsettled settled k c e in
            elim (ℕ_discrete b h) [
              | yes p ↦
                  let (level, ends) = top_bit (suc k) c p in
                  absurd (other ends (below ∙ falls k c (omega arith) p))
              | no n ↦
                  home-unsettled after k c (set_at-other h true settled b n ∙ e)
                  ∙ home_stays k c (λ ends was. other ends (below ∙ was))
                  ∙ sym below
            ]
      ]

  pub home_moves :
      (k c : ℕ)
      → j < k
      → c % 2 ^ suc j ≡ h
      → home settled k c ≡ h % 2 ^ j
      → home (set_at h true settled) k c ≡ h
  home_moves zero c level ends was = absurd (omega arith)
  home_moves (suc k) c level ends was =
      let b = c % 2 ^ suc k in
      let after = set_at h true settled in
      elim (ℕ_discrete b h) [
        | yes p ↦ home-settled after k c (ap after p ∙ set_at-same h true settled) ∙ p
        | no n ↦ elim (Bool-cases (settled b)) [
          | inl e ↦
              let at : b ≡ h % 2 ^ j = sym (home-settled settled k c e) ∙ was in
              let low_part : b % 2 ^ suc j ≡ h = low_bits (suc j) (suc k) c level ∙ ends in
              absurd (omega (arith, at, low_part, low, two_pow_pos j, two_pow_pos (suc j)))
          | inr e ↦
              let lower : j < k = elim (ℕ_discrete j k) [
                | yes q ↦ absurd (n (ap (λ m. c % 2 ^ suc m) (sym q) ∙ ends))
                | no q ↦ omega arith
              ] in
              home-unsettled after k c (set_at-other h true settled b n ∙ e)
              ∙ home_moves k c lower ends (sym (home-unsettled settled k c e) ∙ was)
        ]
      ]
