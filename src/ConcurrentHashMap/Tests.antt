-- ===== src/ConcurrentHashMap/Tests.antt =====
-- A map from numbers, by a hash function that fills few buckets, on which the theorems are run.
use libpmemobj_cpp.Common.{
  ℕ, ◌*◌, ◌==◌, ◌≡◌, refl, sym, subst, ap, Bool, true, false, none, some, List, [], ◌∷◌, arith,
}
use libpmemobj_cpp.ConcurrentHashMap.{
  HashMap, set_at, initial, acquire, search_bucket, unlink, moved, kept, check_growth,
  internal_find, internal_insert, internal_erase,
}
use libpmemobj_cpp.Math.{log2, bit_length}
use native.Mathlib.Decide.{ℕ_discrete}
use libpmemobj_cpp.ConcurrentHashMap.Home.{home, set_at-other}
use libpmemobj_cpp.ConcurrentHashMap.Nodes.{LawfulKeys, AreIn}
use libpmemobj_cpp.ConcurrentHashMap.Buckets.{settled, IsMap}
use libpmemobj_cpp.ConcurrentHashMap.Acquire.{Acquired, acquire-Acquired}
use libpmemobj_cpp.ConcurrentHashMap.History.{
  Operation, finding, inserting, erasing, value, done, perform_all, promised_all, StaysSmall,
  hash_map_operations_refine,
}

abbrev hasher : ℕ → ℕ
hasher key = key * 5

abbrev key_equal : ℕ → ℕ → Bool
key_equal i j = i == j

lawful : LawfulKeys hasher key_equal
lawful = record {
  reflexive = λ key. ground arith;
  alike = λ i j e key. ap (λ n. key_equal n key) (ground (arith, e));
  same_hash = λ i j e. ap hasher (ground (arith, e));
}

-- The second insertion makes the map grow, and the searches divide the first buckets.
abbrev script : List (Operation ℕ ℕ)
script =
    inserting 1 10
    ∷ inserting 3 30
    ∷ inserting 1 11
    ∷ finding 3
    ∷ erasing 1
    ∷ finding 1
    ∷ erasing 7
    ∷ []

answers :
    promised_all key_equal script (λ _. none)
    ≡ done true
      ∷ done true
      ∷ done false
      ∷ value (some 30)
      ∷ done true
      ∷ value none
      ∷ done false
      ∷ []
unfolding promised_all
answers = refl

stays_small : StaysSmall hasher key_equal script initial
unfolding StaysSmall internal_find internal_insert internal_erase acquire search_bucket unlink moved
    kept check_growth log2 bit_length
stays_small = (
  omega arith,
  (omega arith, (omega arith, (omega arith, (omega arith, (omega arith, (omega arith, tt)))))),
)

hash_map_operations_refine_example :
    perform_all hasher key_equal script initial ≡ promised_all key_equal script (λ _. none)
hash_map_operations_refine_example = hash_map_operations_refine lawful script stays_small

abbrev one_node : List (ℕ × ℕ)
one_node = (1, 10) ∷ []

-- Bucket 5 has taken the key 1 from bucket 1, and then a crash came before its flag was set.
abbrev crashed : HashMap ℕ ℕ
crashed = record initial { my_mask = 255; node_list = set_at 5 one_node (λ _. []) }

crashed-IsMap : IsMap lawful 7 crashed
unfolding home search_bucket
crashed-IsMap = record {
  mask = refl;
  bound = omega arith;
  first = refl;
  second = refl;
  fresh = λ b p. rw (set_at-other 5 one_node (λ _. []) b (λ e. omega arith)) (ground (arith, p));
  homes = λ b. elim (ℕ_discrete b 5) [
    | yes e ↦
        subst
          (λ x. AreIn hasher key_equal lawful (home (settled crashed) 8) x (crashed.node_list x))
          (sym e) (refl, refl, tt)
    | no d ↦ rw (set_at-other 5 one_node (λ _. []) b d) tt
  ];
}

acquire-Acquired_example : Acquired lawful 7 13 crashed (acquire hasher key_equal 4 13 crashed)
acquire-Acquired_example =
    acquire-Acquired lawful 4 7 13 crashed crashed-IsMap (omega arith) (omega arith)
