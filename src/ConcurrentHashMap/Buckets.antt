-- ===== src/ConcurrentHashMap/Buckets.antt =====
-- The nodes of all buckets, and what `acquire` does to them: the bucket is rehashed, and every
-- search of a bucket at the home of a key finds what it found before.
use libpmemobj_cpp.Common.{
  ℕ, suc, ◌-◌, ◌%◌, ◌^◌, ◌≤◌, ◌<◌, ◌≡◌, ◌≢◌, ◌⊎◌, refl, sym, ap, subst, ◌∙◌, inl, inr, not, ◌||◌,
  Bool, true, false, Bool-cases, Option, List, arith,
}
use libpmemobj_cpp.Common.Bits.{bit_and_low, two_pow_pos}
use native.Mathlib.Decide.{ℕ_discrete, dec_lt}
use libpmemobj_cpp.ConcurrentHashMap.{HashMap, set_at, is_null, moved, kept, relink}
use libpmemobj_cpp.ConcurrentHashMap.Home.{
  home, home-is_settled, home_stays, home_moves, set_at-same, set_at-other, two_pow_mono,
}
use libpmemobj_cpp.ConcurrentHashMap.Nodes.{
  LawfulKeys, goes, search, AreIn, search-moved, search-kept, AreIn-map, AreIn-moved, AreIn-kept,
}

-- A bucket has its nodes: it is rehashed, or a crash came between the transaction of
-- `rehash_bucket` and the flag.
abbrev pub settled : {K V : Type 0} → HashMap K V → ℕ → Bool
settled s b = s.rehashed b || not (is_null (s.node_list b))

-- A map of `2 ^ suc k` buckets
pub record IsMap {K V : Type 0} {hasher : K → ℕ} {key_equal : K → K → Bool}
    (laws : LawfulKeys hasher key_equal) (k : ℕ) (s : HashMap K V) : Type 0 where
  pub mask : s.my_mask ≡ 2 ^ suc k - 1
  pub bound : k < 32
  pub first : s.rehashed 0 ≡ true
  pub second : s.rehashed 1 ≡ true
  pub fresh : (b : ℕ) → 2 ^ suc k ≤ b → settled s b ≡ false
  pub homes : (b : ℕ) → AreIn hasher key_equal laws (home (settled s) (suc k)) b (s.node_list b)

goes_iff :
    (j h c : ℕ)
    → (goes (2 ^ suc j - 1) h c ≡ true → c % 2 ^ suc j ≡ h)
      × (goes (2 ^ suc j - 1) h c ≡ false → c % 2 ^ suc j ≢ h)
goes_iff j h c =
    let low = bit_and_low (suc j) c in (λ e. ground (arith, low, e), λ e. ground (arith, low, e))

module _ {K V : Type 0} {hasher : K → ℕ} {key_equal : K → K → Bool}
    (laws : LawfulKeys hasher key_equal) where
  -- What a search of the bucket at the home of the key finds
  abbrev pub found : ℕ → HashMap K V → K → Option V
  found k s key =
      search hasher key_equal laws key (s.node_list (home (settled s) (suc k) (hasher key)))

  module _ (k j h : ℕ) (t : HashMap K V) (is_map : IsMap laws k t) (low : 2 ^ j ≤ h)
      (high : h < 2 ^ suc j) (inside : h < 2 ^ suc k) (fresh : settled t h ≡ false)
      (ready : t.rehashed (h % 2 ^ j) ≡ true) where
    abbrev parent : ℕ
    parent = h % 2 ^ j

    abbrev taken : List (K × V)
    taken = moved hasher key_equal (2 ^ suc j - 1) h (t.node_list parent)

    abbrev left : List (K × V)
    left = kept hasher key_equal (2 ^ suc j - 1) h (t.node_list parent)

    abbrev after : HashMap K V
    after = relink hasher key_equal (2 ^ suc j - 1) h parent t

    abbrev place : ℕ → ℕ
    place = home (settled t) (suc k)

    abbrev place_after : ℕ → ℕ
    place_after = home (set_at h true (settled t)) (suc k)

    parent-settled : settled t parent ≡ true
    parent-settled = rw ready refl

    level : j < suc k
    level = elim (dec_lt j (suc k)) [
      | yes l ↦ l
      | no g ↦ absurd (omega (arith, low, inside, two_pow_mono (suc k) j (omega arith)))
    ]

    apart : parent ≢ h
    apart e = omega (arith, low, two_pow_pos j)

    list_at_h : after.node_list h ≡ taken
    list_at_h = set_at-same h taken (set_at parent left t.node_list)

    list_at_parent : after.node_list parent ≡ left
    list_at_parent =
        set_at-other h taken (set_at parent left t.node_list) parent apart
        ∙ set_at-same parent left t.node_list

    pub list_elsewhere : (b : ℕ) → b ≢ h → b ≢ parent → after.node_list b ≡ t.node_list b
    list_elsewhere b n p =
        set_at-other h taken (set_at parent left t.node_list) b n
        ∙ set_at-other parent left t.node_list b p

    still_rehashed : (b : ℕ) → t.rehashed b ≡ true → after.rehashed b ≡ true
    still_rehashed b e = ground (arith, e)

    settled-after : (b : ℕ) → settled after b ≡ set_at h true (settled t) b
    settled-after b = elim (ℕ_discrete b h) [
      | yes e ↦ ground (arith, e)
      | no n ↦ elim (ℕ_discrete b parent) [
        | yes p ↦
            subst (λ x. settled after x ≡ set_at h true (settled t) x) (sym p)
              (rw
                (
                  set_at-other h true (settled t) parent apart,
                  set_at-other h true t.rehashed parent apart,
                  ready,
                )
                refl)
        | no q ↦
            rw
              (
                set_at-other h true (settled t) b n,
                set_at-other h true t.rehashed b n,
                list_elsewhere b n q,
              )
              refl
      ]
    ]

    moves : (c : ℕ) → place c ≡ parent → goes (2 ^ suc j - 1) h c ≡ true → place_after c ≡ h
    moves c was g =
        home_moves (settled t) j h low high fresh parent-settled (suc k) c level
          ((goes_iff j h c).0 g) was

    stays :
        (c b : ℕ)
        → (goes (2 ^ suc j - 1) h c ≡ false) ⊎ (b ≢ parent)
        → place c ≡ b
        → place_after c ≡ b
    stays c b why was =
        home_stays (settled t) j h low high fresh parent-settled (suc k) c
          (λ ends at. elim why [ inl g ↦ (goes_iff j h c).1 g ends | inr n ↦ n (sym was ∙ at) ])
        ∙ was

    homes_after : (b : ℕ) → AreIn hasher key_equal laws place_after b (after.node_list b)
    homes_after b = elim (ℕ_discrete b h) [
      | yes e ↦
          subst (λ x. AreIn hasher key_equal laws place_after x (after.node_list x)) (sym e)
            (rw list_at_h (
              AreIn-moved hasher key_equal laws (2 ^ suc j - 1) h place place_after parent h
                (t.node_list parent) moves (is_map.homes parent)))
      | no n ↦ elim (ℕ_discrete b parent) [
        | yes p ↦
            subst (λ x. AreIn hasher key_equal laws place_after x (after.node_list x)) (sym p)
              (rw list_at_parent (
                AreIn-kept hasher key_equal laws (2 ^ suc j - 1) h place place_after parent parent
                  (t.node_list parent) (λ c was g. stays c parent (inl g) was)
                  (is_map.homes parent)))
        | no q ↦ rw (list_elsewhere b n q) (
            AreIn-map hasher key_equal laws place place_after b b (t.node_list b)
              (λ c was. stays c b (inr q) was) (is_map.homes b))
      ]
    ]

    pub relink-IsMap : IsMap laws k after
    relink-IsMap = record {
      mask = is_map.mask;
      bound = is_map.bound;
      first = still_rehashed 0 is_map.first;
      second = still_rehashed 1 is_map.second;
      fresh = λ b p.
          settled-after b ∙ set_at-other h true (settled t) b (λ e. omega arith) ∙ is_map.fresh b p;
      homes = λ b.
          subst
            (λ (f : ℕ → Bool). AreIn hasher key_equal laws (home f (suc k)) b (after.node_list b))
            (λ i x. sym (settled-after x) i) (homes_after b);
    }

    -- A search at the new home of a hash code that was at `b`
    search_at_stays :
        (key : K) (b : ℕ)
        → place (hasher key) ≡ b
        → (goes (2 ^ suc j - 1) h (hasher key) ≡ false) ⊎ (b ≢ parent)
        → search hasher key_equal laws key (after.node_list b)
          ≡ search hasher key_equal laws key (t.node_list b)
    search_at_stays key b was why = elim (ℕ_discrete b parent) [
      | no q ↦
          rw
            (list_elsewhere b
              (λ e.
                home-is_settled (settled t) (suc k) (hasher key) h
                  (omega (arith, low, two_pow_pos j)) fresh (was ∙ e))
              q)
            refl
      | yes p ↦ elim why [
        | inr n ↦ absurd (n p)
        | inl g ↦
            subst
              (λ x.
                search hasher key_equal laws key (after.node_list x)
                ≡ search hasher key_equal laws key (t.node_list x))
              (sym p)
              (rw list_at_parent (
                search-kept hasher key_equal laws (2 ^ suc j - 1) h key (t.node_list parent)
                ∙ rw g refl))
      ]
    ]

    found_after :
        (key : K)
        → search hasher key_equal laws key (after.node_list (place_after (hasher key)))
          ≡ found k t key
    found_after key =
        let b = place (hasher key) in
        elim (Bool-cases (goes (2 ^ suc j - 1) h (hasher key))) [
          | inl g ↦ elim (ℕ_discrete b parent) [
            | yes p ↦
                ap (λ x. search hasher key_equal laws key (after.node_list x))
                  (moves (hasher key) p g)
                ∙ ap (search hasher key_equal laws key) list_at_h
                ∙ search-moved hasher key_equal laws (2 ^ suc j - 1) h key (t.node_list parent)
                ∙ rw (g, p) refl
            | no q ↦
                ap (λ x. search hasher key_equal laws key (after.node_list x))
                  (stays (hasher key) b (inr q) refl)
                ∙ search_at_stays key b refl (inr q)
          ]
          | inr g ↦
              ap (λ x. search hasher key_equal laws key (after.node_list x))
                (stays (hasher key) b (inl g) refl)
              ∙ search_at_stays key b refl (inl g)
        ]

    pub relink-found : (key : K) → found k after key ≡ found k t key
    relink-found key =
        subst
          (λ (f : ℕ → Bool).
            search hasher key_equal laws key (after.node_list (home f (suc k) (hasher key)))
            ≡ found k t key)
          (λ i x. sym (settled-after x) i) (found_after key)
