-- ===== src/ConcurrentHashMap/Acquire.antt =====
-- `acquire` of a bucket, which rehashes it from its parent, and the parent from its own.
use libpmemobj_cpp.Common.{
  ℕ, zero, suc, ◌+◌, ◌-◌, ◌*◌, ◌%◌, ◌^◌, ◌≤◌, ◌<◌, ◌≡◌, refl, sym, ap, subst, ◌∙◌, inl, inr,
  bit_and, Bool, true, false, Bool-cases, arith,
}
use libpmemobj_cpp.Common.Bits.{bit_and_low, two_pow_suc, two_pow_pos}
use native.Mathlib.Decide.{ℕ_discrete, dec_lt}
use libpmemobj_cpp.Math.{log2}
use libpmemobj_cpp.Math.Bounds.{log2_bounds}
use libpmemobj_cpp.ConcurrentHashMap.{HashMap, set_rehashed, is_null, relink, acquire}
use libpmemobj_cpp.ConcurrentHashMap.Home.{home, set_at-same, set_at-other, two_pow_mono}
use libpmemobj_cpp.ConcurrentHashMap.Nodes.{LawfulKeys, AreIn, search}
use libpmemobj_cpp.ConcurrentHashMap.Buckets.{
  settled, IsMap, found, relink-IsMap, relink-found, list_elsewhere,
}

-- The bucket of a hash code without its highest bit, in the words of the source
halves :
    (k h : ℕ)
    → k < 32
    → h < 2 ^ suc k
    → 0 < h
    → (2 ^ log2 h ≤ h)
      × (h < 2 ^ suc (log2 h))
      × (bit_and h (2 ^ log2 h - 1) ≡ h % 2 ^ log2 h)
      × ((2 ^ log2 h - 1) * 2 + 1 ≡ 2 ^ suc (log2 h) - 1)
halves k h bound inside pos =
    let (low, high, _) =
      log2_bounds h pos (omega (arith, inside, two_pow_mono (suc k) 32 (omega arith))) in
    (
      low,
      subst (λ n. h < 2 ^ n) (omega arith) high,
      bit_and_low (log2 h) h,
      omega (arith, two_pow_suc (log2 h), two_pow_pos (log2 h)),
    )

-- What is below the highest bit is reached with one step less.
level :
    (fuel h : ℕ)
    → 2 ^ log2 h ≤ h
    → h < 2 ^ suc fuel
    → h % 2 ^ log2 h < 2 ^ log2 h
    → h % 2 ^ log2 h < 2 ^ fuel
level fuel h low enough below = elim (dec_lt fuel (log2 h)) [
  | yes l ↦ absurd (omega (arith, two_pow_mono (suc fuel) (log2 h) l))
  | no g ↦ omega (arith, two_pow_mono (log2 h) fuel (omega arith))
]

module _ {K V : Type 0} {hasher : K → ℕ} {key_equal : K → K → Bool}
    (laws : LawfulKeys hasher key_equal) where
  -- The bucket is rehashed, nothing is found otherwise, the mask and the size are as they were, and
  -- no bucket above it has changed.
  pub record Acquired (k h : ℕ) (s t : HashMap K V) : Type 0 where
    pub is_map : IsMap laws k t
    pub same : (key : K) → found laws k t key ≡ found laws k s key
    pub ready : t.rehashed h ≡ true
    pub mask : t.my_mask ≡ s.my_mask
    pub size : t.my_size ≡ s.my_size
    pub above : (b : ℕ) → h < b → (t.node_list b ≡ s.node_list b) × (t.rehashed b ≡ s.rehashed b)

  settled-set_rehashed :
      (h : ℕ) (s : HashMap K V)
      → is_null (s.node_list h) ≡ false
      → (b : ℕ) → settled (set_rehashed h s) b ≡ settled s b
  settled-set_rehashed h s some_nodes b = elim (ℕ_discrete b h) [
    | yes e ↦
        subst (λ x. settled (set_rehashed h s) x ≡ settled s x) (sym e)
          (rw (set_at-same h true s.rehashed, some_nodes) (ground arith))
    | no n ↦ rw (set_at-other h true s.rehashed b n) refl
  ]

  -- After a crash before the flag was set
  set_rehashed-Acquired :
      (k h : ℕ) (s : HashMap K V)
      → IsMap laws k s
      → is_null (s.node_list h) ≡ false
      → Acquired k h s (set_rehashed h s)
  set_rehashed-Acquired k h s is_map some_nodes =
      let same : settled s ≡ settled (set_rehashed h s) =
        λ i b. sym (settled-set_rehashed h s some_nodes b) i in
      record {
        is_map = record {
          mask = is_map.mask;
          bound = is_map.bound;
          first = ground (arith, is_map.first);
          second = ground (arith, is_map.second);
          fresh = λ b p. ap (λ f. f b) (sym same) ∙ is_map.fresh b p;
          homes = λ b.
              subst
                (λ (f : ℕ → Bool). AreIn hasher key_equal laws (home f (suc k)) b (s.node_list b))
                same (is_map.homes b);
        };
        same = λ key.
            ap
              (λ (f : ℕ → Bool).
                search hasher key_equal laws key (s.node_list (home f (suc k) (hasher key))))
              (sym same);
        ready = set_at-same h true s.rehashed;
        mask = refl;
        size = refl;
        above = λ b p. (refl, set_at-other h true s.rehashed b (λ e. omega arith));
      }

  relink-Acquired :
      (k j h : ℕ) (s t : HashMap K V)
      → Acquired k (h % 2 ^ j) s t
      → 2 ^ j ≤ h
      → h < 2 ^ suc j
      → h < 2 ^ suc k
      → s.rehashed h ≡ false
      → is_null (s.node_list h) ≡ true
      → Acquired k h s (relink hasher key_equal (2 ^ suc j - 1) h (h % 2 ^ j) t)
  relink-Acquired k j h s t before low high inside unset no_nodes =
      let below : h % 2 ^ j < h = omega (arith, low, two_pow_pos j) in
      let (nodes, flag) = before.above h below in
      let fresh : settled t h ≡ false = rw (nodes, flag, unset, no_nodes) refl in
      record {
        is_map = relink-IsMap laws k j h t before.is_map low high inside fresh before.ready;
        same = λ key.
            relink-found laws k j h t before.is_map low high inside fresh before.ready key
            ∙ before.same key;
        ready = set_at-same h true t.rehashed;
        mask = before.mask;
        size = before.size;
        above = λ b p.
            let (nodes_b, flag_b) = before.above b (omega (arith, below)) in
            (
              list_elsewhere laws k j h t before.is_map low high inside fresh before.ready b
                    (λ e. omega arith) (λ e. omega (arith, below))
                  ∙ nodes_b,
              set_at-other h true t.rehashed b (λ e. omega arith) ∙ flag_b,
            );
      }

  unchanged : (k h : ℕ) (s : HashMap K V) → IsMap laws k s → s.rehashed h ≡ true → Acquired k h s s
  unchanged k h s is_map e = record {
    is_map = is_map;
    same = λ key. refl;
    ready = e;
    mask = refl;
    size = refl;
    above = λ b p. (refl, refl);
  }

  -- In a map whose nodes stand in the home buckets of their hash codes, where a crash may have left
  -- buckets with their nodes but without the flag: acquire of a bucket of the table, on fuel for the
  -- bits of its index, rehashes it and keeps the map as it must be, and every key is found as before.
  pub acquire-Acquired :
      (fuel k h : ℕ) (s : HashMap K V)
      → IsMap laws k s
      → h < 2 ^ suc k
      → h < 2 ^ fuel
      → Acquired k h s (acquire hasher key_equal fuel h s)
  unfolding acquire
  acquire-Acquired zero k h s is_map inside enough =
      let zeroth : h ≡ 0 = omega arith in
      unchanged k h s is_map (ap s.rehashed zeroth ∙ is_map.first)
  acquire-Acquired (suc fuel) k h s is_map inside enough = elim (Bool-cases (s.rehashed h)) [
    | inl e ↦ rw e (unchanged k h s is_map e)
    | inr e ↦
        let pos : 0 < h = elim (ℕ_discrete h 0) [
          | yes z ↦ absurd (ground (arith, e, ap s.rehashed z, is_map.first))
          | no n ↦ omega arith
        ] in
        let (low, high, parent_is, mask_is) = halves k h is_map.bound inside pos in
        elim (Bool-cases (is_null (s.node_list h))) [
          | inl n ↦
              let below : h % 2 ^ log2 h < 2 ^ log2 h = omega (arith, two_pow_pos (log2 h)) in
              let before =
                acquire-Acquired fuel k (h % 2 ^ log2 h) s is_map (omega (arith, below, low))
                  (level fuel h low enough below) in
              rw (e, n, parent_is, mask_is)
                (relink-Acquired k (log2 h) h s (acquire hasher key_equal fuel (h % 2 ^ log2 h) s)
                  before low high inside e n)
          | inr n ↦ rw (e, n) (set_rehashed-Acquired k h s is_map n)
        ]
  ]
