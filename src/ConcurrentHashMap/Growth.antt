-- ===== src/ConcurrentHashMap/Growth.antt =====
-- What a change of one rehashed bucket does to the map, and what `check_growth` does.
use libpmemobj_cpp.Common.{
  ℕ, suc, ◌+◌, ◌-◌, ◌*◌, ◌^◌, ◌≤◌, ◌<◌, ◌≡◌, refl, sym, ap, subst, ◌∙◌, inl, inr, leb, leb→le,
  leb→lt, Bool, true, Bool-cases, List, arith,
}
use libpmemobj_cpp.Common.Bits.{two_pow_suc, two_pow_pos}
use native.Mathlib.Decide.{ℕ_discrete, dec_lt}
use libpmemobj_cpp.Math.{log2}
use libpmemobj_cpp.Math.Bounds.{log2_bounds}
use libpmemobj_cpp.ConcurrentHashMap.{HashMap, set_at, check_growth}
use libpmemobj_cpp.ConcurrentHashMap.Home.{home, home-more, set_at-same, set_at-other, two_pow_mono}
use libpmemobj_cpp.ConcurrentHashMap.Nodes.{LawfulKeys, AreIn, AreIn-map, search}
use libpmemobj_cpp.ConcurrentHashMap.Buckets.{settled, IsMap, found}

log2-two_pow : (n : ℕ) → n < 64 → log2 (2 ^ n) ≡ n
log2-two_pow n h =
    let (low, high, _) =
      log2_bounds (2 ^ n) (two_pow_pos n)
        (omega (arith, two_pow_mono (suc n) 64 h, two_pow_suc n, two_pow_pos n)) in
    elim (dec_lt n (log2 (2 ^ n))) [
      | yes l ↦
          absurd (
            omega (arith, low, two_pow_mono (suc n) (log2 (2 ^ n)) l, two_pow_suc n, two_pow_pos n))
      | no g ↦ elim (dec_lt (log2 (2 ^ n)) n) [
        | yes l ↦ absurd (omega (arith, high, two_pow_mono (log2 (2 ^ n) + 1) n (omega arith)))
        | no s ↦ omega arith
      ]
    ]

module _ {K V : Type 0} {hasher : K → ℕ} {key_equal : K → K → Bool}
    (laws : LawfulKeys hasher key_equal) where
  -- A rehashed bucket is given another list.
  module _ (k b n : ℕ) (ns : List (K × V)) (t : HashMap K V) (is_map : IsMap laws k t)
      (ready : t.rehashed b ≡ true) where
    abbrev edited : HashMap K V
    edited = record t { node_list = set_at b ns t.node_list; my_size = n }

    settled_is : settled t ≡ settled edited
    settled_is i x = one x i
      where
        one : (x : ℕ) → settled t x ≡ settled edited x
        one x = elim (ℕ_discrete x b) [
          | yes e ↦ subst (λ y. settled t y ≡ settled edited y) (sym e) (rw ready refl)
          | no d ↦ rw (set_at-other b ns t.node_list x d) refl
        ]

    pub edited-IsMap :
        AreIn hasher key_equal laws (home (settled t) (suc k)) b ns → IsMap laws k edited
    edited-IsMap all = record {
      mask = is_map.mask;
      bound = is_map.bound;
      first = is_map.first;
      second = is_map.second;
      fresh = λ x p. ap (λ f. f x) (sym settled_is) ∙ is_map.fresh x p;
      homes = λ x.
          subst
            (λ (f : ℕ → Bool). AreIn hasher key_equal laws (home f (suc k)) x (edited.node_list x))
            settled_is
            (elim (ℕ_discrete x b) [
              | yes e ↦
                  subst
                    (λ y.
                      AreIn hasher key_equal laws (home (settled t) (suc k)) y (edited.node_list y))
                    (sym e) (rw (set_at-same b ns t.node_list) all)
              | no d ↦ rw (set_at-other b ns t.node_list x d) (is_map.homes x)
            ]);
    }

    pub edited-found :
        (key : K)
        → found laws k edited key
          ≡ search hasher key_equal laws key
              (set_at b ns t.node_list (home (settled t) (suc k) (hasher key)))
    edited-found key =
        ap
          (λ (f : ℕ → Bool).
            search hasher key_equal laws key
              (set_at b ns t.node_list (home f (suc k) (hasher key))))
          (sym settled_is)

  -- A larger mask finds what the smaller one did.
  masked :
      (k n : ℕ) (s : HashMap K V)
      → IsMap laws k s
      → k ≤ n
      → n < 32
      → IsMap laws n (record s { my_mask = 2 ^ suc n - 1 })
        × ((key : K) → found laws n (record s { my_mask = 2 ^ suc n - 1 }) key ≡ found laws k s key)
  masked k n s is_map grows bound =
      let more : (c : ℕ) → home (settled s) (suc n) c ≡ home (settled s) (suc k) c =
        λ c. home-more (settled s) k c (suc n) (omega arith) is_map.fresh in
      (
        record {
          mask = refl;
          bound = bound;
          first = is_map.first;
          second = is_map.second;
          fresh =
              λ b p. is_map.fresh b (omega (arith, p, two_pow_mono (suc k) (suc n) (omega arith)));
          homes = λ b.
              AreIn-map hasher key_equal laws (home (settled s) (suc k)) (home (settled s) (suc n))
                b b (s.node_list b) (λ c e. more c ∙ e) (is_map.homes b);
        },
        λ key. ap (λ b. search hasher key_equal laws key (s.node_list b)) (more (hasher key)),
      )

  pub check_growth-IsMap :
      (k sz : ℕ) (s : HashMap K V)
      → IsMap laws k s
      → sz < 2 ^ 32 - 1
      → (n : ℕ) × IsMap laws n (check_growth s.my_mask sz s)
        × ((key : K) → found laws n (check_growth s.my_mask sz s) key ≡ found laws k s key)
  unfolding check_growth
  check_growth-IsMap k sz s is_map small = elim (Bool-cases (leb s.my_mask sz)) [
    | inr e ↦ rw e (k, is_map, λ key. refl)
    | inl e ↦
        let room : suc k < 32 = elim (dec_lt (suc k) 32) [
          | yes l ↦ l
          | no g ↦ absurd (
              omega
                (arith, leb→le s.my_mask sz e, is_map.mask, two_pow_mono 32 (suc k) (omega arith)))
        ] in
        let seg : log2 (s.my_mask + 1) ≡ suc k =
          ap log2 (omega (arith, is_map.mask, two_pow_pos (suc k)))
          ∙ log2-two_pow (suc k) (omega arith) in
        rw (e, seg)
          (elim (Bool-cases (leb 8 (suc k))) [
            | inl big ↦
                let (shape, same) = masked k (suc k) s is_map (omega arith) room in
                rw (big, sym (two_pow_double k)) (suc k, shape, same)
            | inr few ↦
                let (shape, same) =
                  masked k 7 s is_map (omega (arith, leb→lt 8 (suc k) few)) (omega arith) in
                rw few (7, shape, same)
          ])
  ]
    where
      two_pow_double : (k : ℕ) → 2 ^ suc (suc k) ≡ 2 ^ suc k * 2
      two_pow_double k = omega (arith, two_pow_suc (suc k))
