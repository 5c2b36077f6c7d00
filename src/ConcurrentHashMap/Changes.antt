-- ===== src/ConcurrentHashMap/Changes.antt =====
-- The bucket of a key, and what the keys find after a node was inserted there or erased.
use libpmemobj_cpp.Common.{
  ℕ, suc, ◌-◌, ◌%◌, ◌^◌, ◌<◌, ◌≡◌, ◌≢◌, refl, sym, ap, subst, ◌∙◌, inl, inr, bit_and, if◌then◌else◌,
  Bool, true, false, Bool-cases, Option, none, some, List, ◌∷◌, arith, leb,
}
use libpmemobj_cpp.Common.Bits.{bit_and_low, two_pow_pos}
use native.Mathlib.Decide.{ℕ_discrete}
use libpmemobj_cpp.ConcurrentHashMap.{HashMap, set_at, acquire, search_bucket, unlink, check_growth}
use libpmemobj_cpp.ConcurrentHashMap.Home.{
  home, home-settled, set_at-same, set_at-other, two_pow_mono,
}
use libpmemobj_cpp.ConcurrentHashMap.Nodes.{LawfulKeys, search, search-unlink}
use libpmemobj_cpp.ConcurrentHashMap.Buckets.{settled, IsMap, found}
use libpmemobj_cpp.ConcurrentHashMap.Acquire.{Acquired, acquire-Acquired}
use libpmemobj_cpp.ConcurrentHashMap.Growth.{edited-found, check_growth-IsMap}

module _ {K V : Type 0} {hasher : K → ℕ} {key_equal : K → K → Bool}
    (laws : LawfulKeys hasher key_equal) where
  -- The bucket of a key, once it is acquired, is the home of its hash code.
  pub record AtHome (k : ℕ) (key : K) (s : HashMap K V) (t : HashMap K V) (b : ℕ) : Type 0 where
    pub acquired : Acquired laws k b s t
    pub at : home (settled t) (suc k) (hasher key) ≡ b
    pub finds : search_bucket hasher key_equal key (t.node_list b) ≡ found laws k s key

  pub acquire-AtHome :
      (k : ℕ) (key : K) (s : HashMap K V)
      → IsMap laws k s
      → AtHome k key s
          (acquire hasher key_equal 64 (bit_and (hasher key) s.my_mask) s)
          (bit_and (hasher key) s.my_mask)
  acquire-AtHome k key s is_map =
      let b = bit_and (hasher key) s.my_mask in
      let bits : b ≡ hasher key % 2 ^ suc k =
        ap (bit_and (hasher key)) is_map.mask ∙ bit_and_low (suc k) (hasher key) in
      let inside : b < 2 ^ suc k = omega (arith, bits, two_pow_pos (suc k)) in
      let a = acquire-Acquired laws 64 k b s is_map inside (
        omega
          (arith, inside, is_map.bound, two_pow_mono (suc k) 64 (omega (arith, is_map.bound)))) in
      let t = acquire hasher key_equal 64 b s in
      let at : home (settled t) (suc k) (hasher key) ≡ b =
        home-settled (settled t) k (hasher key) (ap (settled t) (sym bits) ∙ rw a.ready refl)
        ∙ sym bits in
      record {
        acquired = a;
        at = at;
        finds = ap (λ x. search hasher key_equal laws key (t.node_list x)) (sym at) ∙ a.same key;
      }

  pub check_growth-my_size :
      (q sz : ℕ) (s : HashMap K V) → (check_growth q sz s).my_size ≡ s.my_size
  unfolding check_growth
  check_growth-my_size q sz s = elim (Bool-cases (leb q sz)) [
    | inl e ↦ rw e refl
    | inr e ↦ rw e refl
  ]

  pub grown :
      (k q sz : ℕ) (t : HashMap K V)
      → IsMap laws k t
      → t.my_mask ≡ q
      → sz < 2 ^ 32 - 1
      → (n : ℕ) × IsMap laws n (check_growth q sz t)
        × ((key : K) → found laws n (check_growth q sz t) key ≡ found laws k t key)
  grown k q sz t is_map e small =
      subst
        (λ p.
          (n : ℕ) × IsMap laws n (check_growth p sz t)
          × ((key : K) → found laws n (check_growth p sz t) key ≡ found laws k t key))
        e (check_growth-IsMap laws k sz t is_map small)

  module _ (k : ℕ) (key : K) where
    -- The keys of a changed bucket find what the new list says, and the others what they did.
    changed-found :
        (t : HashMap K V) (b n : ℕ) (ns : List (K × V)) (after : K → Option V)
        → IsMap laws k t
        → t.rehashed b ≡ true
        → ((j : K)
            → home (settled t) (suc k) (hasher j) ≡ b
            → search hasher key_equal laws j ns ≡ after j)
        → ((j : K) → home (settled t) (suc k) (hasher j) ≢ b → found laws k t j ≡ after j)
        → (j : K)
        → found laws k (record t { node_list = set_at b ns t.node_list; my_size = n }) j ≡ after j
    changed-found t b n ns after is_map ready here there j =
        edited-found laws k b n ns t is_map ready j
        ∙ elim (ℕ_discrete (home (settled t) (suc k) (hasher j)) b) [
          | yes e ↦ rw (e, set_at-same b ns t.node_list) (here j e)
          | no d ↦
              rw (set_at-other b ns t.node_list (home (settled t) (suc k) (hasher j)) d) (there j d)
        ]

    other_bucket :
        (t : HashMap K V) (b : ℕ) (j : K)
        → home (settled t) (suc k) (hasher key) ≡ b
        → home (settled t) (suc k) (hasher j) ≢ b
        → key_equal j key ≡ false
    other_bucket t b j at d = elim (Bool-cases (key_equal j key)) [
      | inl e ↦ absurd (d (ap (home (settled t) (suc k)) (laws.same_hash j key e) ∙ at))
      | inr e ↦ e
    ]

    pub inserted-found :
        (x : V) (t : HashMap K V) (b n : ℕ)
        → IsMap laws k t
        → t.rehashed b ≡ true
        → home (settled t) (suc k) (hasher key) ≡ b
        → (m : K → Option V) → ((j : K) → found laws k t j ≡ m j)
        → (j : K)
        → found laws k
            (record t { node_list = set_at b ((key, x) ∷ t.node_list b) t.node_list; my_size = n })
            j
          ≡ (if key_equal j key then some x else m j)
    unfolding search_bucket
    inserted-found x t b n is_map ready at m shows =
        changed-found t b n ((key, x) ∷ t.node_list b)
          (λ j. if key_equal j key then some x else m j) is_map ready
          (λ j e.
            ap (λ (o : Option V). if key_equal j key then some x else o)
              (ap (λ c. search hasher key_equal laws j (t.node_list c)) (sym e) ∙ shows j))
          (λ j d. rw (other_bucket t b j at d) (shows j))

    pub erased-found :
        (t : HashMap K V) (b n : ℕ)
        → IsMap laws k t
        → t.rehashed b ≡ true
        → home (settled t) (suc k) (hasher key) ≡ b
        → (m : K → Option V) → ((j : K) → found laws k t j ≡ m j)
        → (j : K)
        → found laws k
            (record t {
              node_list = set_at b (unlink hasher key_equal key (t.node_list b)) t.node_list;
              my_size = n;
            })
            j
          ≡ (if key_equal j key then none else m j)
    erased-found t b n is_map ready at m shows =
        changed-found t b n (unlink hasher key_equal key (t.node_list b))
          (λ j. if key_equal j key then none else m j) is_map ready
          (λ j e.
            search-unlink hasher key_equal laws (home (settled t) (suc k)) b key j (t.node_list b)
              (is_map.homes b)
            ∙ ap (λ (o : Option V). if key_equal j key then none else o)
                (ap (λ c. search hasher key_equal laws j (t.node_list c)) (sym e) ∙ shows j))
          (λ j d. rw (other_bucket t b j at d) (shows j))
