-- ===== src/ConcurrentHashMap/History.antt =====
-- Any sequence of operations, against a function from keys to values.
use libpmemobj_cpp.Common.{
  ℕ, suc, ◌-◌, ◌^◌, ◌<◌, ◌≡◌, refl, ap, subst, ◌∙◌, inl, inr, bit_and, if◌then◌else◌, Bool, true,
  false, Option, Option-cases, none, some, List, [], ◌∷◌, arith,
}
use libpmemobj_cpp.Common.Words.{sub64}
use libpmemobj_cpp.ConcurrentHashMap.{
  HashMap, initial, acquire, search_bucket, unlink, insert_new_node, internal_find, internal_insert,
  internal_erase,
}
use libpmemobj_cpp.ConcurrentHashMap.Home.{home}
use libpmemobj_cpp.ConcurrentHashMap.Nodes.{LawfulKeys, AreIn-unlink}
use libpmemobj_cpp.ConcurrentHashMap.Buckets.{settled, IsMap, found}
use libpmemobj_cpp.ConcurrentHashMap.Changes.{
  acquire-AtHome, check_growth-my_size, grown, inserted-found, erased-found,
}
use libpmemobj_cpp.ConcurrentHashMap.Growth.{edited-IsMap}

-- One call, and its answer
pub data Operation (K V : Type 0) : Type 0 where
  finding : K → Operation K V
  inserting : K → V → Operation K V
  erasing : K → Operation K V

pub data Answer (V : Type 0) : Type 0 where
  value : Option V → Answer V
  done : Bool → Answer V

-- What a call promises of a function from keys to values
abbrev pub promised :
    {K V : Type 0} → (K → K → Bool) → Operation K V → (K → Option V) → (K → Option V) × Answer V
promised key_equal (finding key) m = (m, value (m key))
promised key_equal (inserting key x) m = elim (m key) [
  | some _ ↦ (m, done false)
  | none ↦ (λ j. if key_equal j key then some x else m j, done true)
]
promised key_equal (erasing key) m = elim (m key) [
  | some _ ↦ (λ j. if key_equal j key then none else m j, done true)
  | none ↦ (m, done false)
]

unfoldable pub promised_all :
    {K V : Type 0} → (K → K → Bool) → List (Operation K V) → (K → Option V) → List (Answer V)
promised_all key_equal [] m = []
promised_all key_equal (o ∷ os) m =
    let next = promised key_equal o m in next.1 ∷ promised_all key_equal os next.0

-- The call itself
abbrev pub perform :
    {K V : Type 0} → (K → ℕ) → (K → K → Bool) → Operation K V → HashMap K V → HashMap K V × Answer V
perform hasher key_equal (finding key) s =
    let out = internal_find hasher key_equal key s in (out.0, value out.1)
perform hasher key_equal (inserting key x) s =
    let out = internal_insert hasher key_equal (key, x) s in (out.0, done out.1)
perform hasher key_equal (erasing key) s =
    let out = internal_erase hasher key_equal key s in (out.0, done out.1)

unfoldable pub perform_all :
    {K V : Type 0} → (K → ℕ) → (K → K → Bool) → List (Operation K V) → HashMap K V → List (Answer V)
perform_all hasher key_equal [] s = []
perform_all hasher key_equal (o ∷ os) s =
    let next = perform hasher key_equal o s in next.1 ∷ perform_all hasher key_equal os next.0

-- After every call the map has less than 2^32 - 1 elements, for which the table of segments is made.
unfoldable pub StaysSmall :
    {K V : Type 0} → (K → ℕ) → (K → K → Bool) → List (Operation K V) → HashMap K V → Type 0
StaysSmall hasher key_equal [] s = Unit
StaysSmall hasher key_equal (o ∷ os) s =
    let next = (perform hasher key_equal o s).0 in
    (next.my_size < 2 ^ 32 - 1) × StaysSmall hasher key_equal os next

module _ {K V : Type 0} {hasher : K → ℕ} {key_equal : K → K → Bool}
    (laws : LawfulKeys hasher key_equal) where
  -- The map holds what the function says.
  abbrev Shows : HashMap K V → (K → Option V) → Type 0
  Shows s m = (k : ℕ) × IsMap laws k s × ((key : K) → found laws k s key ≡ m key)

  Does : Operation K V → HashMap K V → (K → Option V) → Type 0
  Does o s m =
      ((perform hasher key_equal o s).1 ≡ (promised key_equal o m).1)
      × Shows (perform hasher key_equal o s).0 (promised key_equal o m).0

  perform-Does :
      (o : Operation K V) (s : HashMap K V) (m : K → Option V)
      → Shows s m
      → (perform hasher key_equal o s).0.my_size < 2 ^ 32 - 1
      → Does o s m
  unfolding Does internal_find internal_insert internal_erase
  perform-Does (finding key) s m (k, is_map, shows) small =
      let here = acquire-AtHome laws k key s is_map in
      (
        ap value (here.finds ∙ shows key),
        (k, here.acquired.is_map, λ j. here.acquired.same j ∙ shows j),
      )
  perform-Does (inserting key x) s m (k, is_map, shows) small =
      let here = acquire-AtHome laws k key s is_map in
      let b = bit_and (hasher key) s.my_mask in
      let t = acquire hasher key_equal 64 b s in
      elim (Option-cases (m key)) [
        | inr (v, e) ↦
            let hit = here.finds ∙ shows key ∙ e in
            let (n, shape, same) =
              grown laws k s.my_mask 0 t here.acquired.is_map here.acquired.mask (omega arith) in
            rw (internal_insert, promised, hit, e)
              (refl, (n, shape, λ j. same j ∙ here.acquired.same j ∙ shows j))
        | inl e ↦
            let miss = here.finds ∙ shows key ∙ e in
            let u = insert_new_node b (key, x) t in
            let sized : (internal_insert hasher key_equal (key, x) s).0.my_size ≡ u.my_size =
              rw (internal_insert, miss) (check_growth-my_size laws s.my_mask u.my_size u) in
            let (n, shape, same) =
              grown laws k s.my_mask u.my_size u
                (edited-IsMap laws k b u.my_size ((key, x) ∷ t.node_list b) t here.acquired.is_map
                  here.acquired.ready (here.at, miss, here.acquired.is_map.homes b))
                here.acquired.mask (subst (λ q. q < 2 ^ 32 - 1) sized small) in
            let shows_t : (j : K) → found laws k t j ≡ m j = λ j. here.acquired.same j ∙ shows j in
            rw (internal_insert, promised, miss, e)
              (
                refl,
                (
                  n,
                  shape,
                  λ j.
                      same j
                      ∙ inserted-found laws k key x t b u.my_size here.acquired.is_map
                          here.acquired.ready here.at m shows_t j,
                ),
              )
      ]
  perform-Does (erasing key) s m (k, is_map, shows) small =
      let here = acquire-AtHome laws k key s is_map in
      let b = bit_and (hasher key) s.my_mask in
      let t = acquire hasher key_equal 64 b s in
      elim (Option-cases (m key)) [
        | inl e ↦
            let miss = here.finds ∙ shows key ∙ e in
            rw (internal_erase, promised, miss, e)
              (refl, (k, here.acquired.is_map, λ j. here.acquired.same j ∙ shows j))
        | inr (v, e) ↦
            let hit = here.finds ∙ shows key ∙ e in
            let ns = unlink hasher key_equal key (t.node_list b) in
            let homes = here.acquired.is_map.homes b in
            let shows_t : (j : K) → found laws k t j ≡ m j = λ j. here.acquired.same j ∙ shows j in
            rw (internal_erase, promised, hit, e)
              (
                refl,
                (
                  k,
                  edited-IsMap laws k b (sub64 t.my_size 1) ns t here.acquired.is_map
                      here.acquired.ready
                      (AreIn-unlink hasher key_equal laws (home (settled t) (suc k)) b key
                        (t.node_list b) homes),
                  erased-found laws k key t b (sub64 t.my_size 1) here.acquired.is_map
                      here.acquired.ready here.at m shows_t,
                ),
              )
      ]

  perform_all-Does :
      (os : List (Operation K V)) (s : HashMap K V) (m : K → Option V)
      → Shows s m
      → StaysSmall hasher key_equal os s
      → perform_all hasher key_equal os s ≡ promised_all key_equal os m
  unfolding perform_all promised_all StaysSmall Does
  perform_all-Does [] s m shows small = refl
  perform_all-Does (o ∷ os) s m shows small =
      let (same, after) = perform-Does o s m shows small.0 in
      let rest =
        perform_all-Does os (perform hasher key_equal o s).0 (promised key_equal o m).0 after
          small.1 in
      λ i. same i ∷ rest i

  initial-Shows : Shows initial (λ _. none)
  unfolding search_bucket
  initial-Shows = (
    0,
    record {
      mask = refl;
      bound = omega arith;
      first = refl;
      second = refl;
      fresh = λ b p. ground (arith, p);
      homes = λ b. tt;
    },
    λ key. refl,
  )

  -- For a hash function and a comparison of keys as the standard requires them: any sequence of
  -- internal_find, internal_insert and internal_erase by one thread on an empty map, while it stays
  -- below 2^32 - 1 elements, answers as a function from keys to values does that is updated by the
  -- same insertions, of keys that are absent, and erasures.
  pub hash_map_operations_refine :
      (os : List (Operation K V))
      → StaysSmall hasher key_equal os initial
      → perform_all hasher key_equal os initial ≡ promised_all key_equal os (λ _. none)
  hash_map_operations_refine os small = perform_all-Does os initial (λ _. none) initial-Shows small
