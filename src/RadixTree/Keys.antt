-- ===== src/RadixTree/Keys.antt =====
-- Where two keys differ: in bytes, as `prefix_diff` and `bit_diff` say it, and in half bytes.
use native.Mathlib.Decide.{ℕ_discrete, dec_lt}
use libpmemobj_cpp.Common.{
  ℕ, zero, suc, ◌+◌, ◌-◌, ◌*◌, ◌/◌, ◌%◌, ◌^◌, ◌≤◌, ◌<◌, ◌≡◌, ◌≢◌, refl, ap, sym, ◌∙◌, subst, arith,
  min, ◌==◌, ltb, true, false, ◌&&◌, if◌then◌else◌, ◌⊎◌, inl, inr, Bool-cases,
}
use libpmemobj_cpp.Common.Words.{sub64}
use libpmemobj_cpp.RadixTree.{
  Key, diff_loop, prefix_diff, bit_diff, compares_equal, keys_equal, Tree, node, goes_on,
}
use libpmemobj_cpp.RadixTree.Slices.{nibble, nibble_even, nibble_odd, position, sliced}

abbrev pub AreBytes : Key → Type 0
AreBytes k = (i : ℕ) → k.byte i < 256

diff_loop_bounds :
    (l r : Key) (n diff : ℕ)
    → (diff ≤ diff_loop l r n diff)
      × (diff_loop l r n diff ≤ diff + n)
      × ((i : ℕ) → diff ≤ i → i < diff_loop l r n diff → l.byte i ≡ r.byte i)
      × ((diff_loop l r n diff < diff + n)
          → l.byte (diff_loop l r n diff) ≢ r.byte (diff_loop l r n diff))
unfolding diff_loop
diff_loop_bounds l r zero diff =
    (omega arith, omega arith, λ i p q. absurd (omega arith), λ p. absurd (omega arith))
diff_loop_bounds l r (suc n) diff =
    let (low, high, same, stop) = diff_loop_bounds l r n (diff + 1) in
    elim (ℕ_discrete (l.byte diff) (r.byte diff)) [
      | yes e ↦
          let result : diff_loop l r (suc n) diff ≡ diff_loop l r n (diff + 1) =
            ground (arith, e) in
          (
            omega (arith, result),
            omega (arith, result),
            λ i p q. elim (ℕ_discrete diff i) [
              | yes at ↦ subst (λ j. l.byte j ≡ r.byte j) at e
              | no past ↦ same i (omega arith) (omega (arith, result))
            ],
            λ p. subst (λ j. l.byte j ≢ r.byte j) (sym result) (stop (omega (arith, result))),
          )
      | no e ↦
          let result : diff_loop l r (suc n) diff ≡ diff = ground (arith, e) in
          (
            omega (arith, result),
            omega (arith, result),
            λ i p q. absurd (omega (arith, result)),
            λ p. subst (λ j. l.byte j ≢ r.byte j) (sym result) e,
          )
    ]

-- `prefix_diff` is the first index at which the keys differ, or the length of the shorter one.
pub prefix_diff_lem :
    (l r : Key)
    → (prefix_diff l r ≤ min l.size r.size)
      × ((i : ℕ) → i < prefix_diff l r → l.byte i ≡ r.byte i)
      × ((prefix_diff l r < min l.size r.size)
          → l.byte (prefix_diff l r) ≢ r.byte (prefix_diff l r))
unfolding prefix_diff
prefix_diff_lem l r =
    let (low, high, same, stop) = diff_loop_bounds l r (min l.size r.size) 0 in
    (omega arith, λ i p. same i (omega arith) p, λ p. stop (omega arith))

pub nibble_of_bytes :
    (k l : Key) (q : ℕ) → k.byte (q / 2) ≡ l.byte (q / 2) → nibble k q ≡ nibble l q
unfolding nibble
nibble_of_bytes k l q e = rw e

-- Keys that are equal have the same length and the same half bytes.
pub keys_equal-true :
    (k l : Key)
    → keys_equal k l ≡ true
    → (k.size ≡ l.size)
      × (prefix_diff k l ≡ k.size)
      × ((q : ℕ) → q < 2 * k.size → nibble k q ≡ nibble l q)
unfolding keys_equal compares_equal
keys_equal-true k l h =
    let (bound, same, stop) = prefix_diff_lem k l in
    let size : k.size ≡ l.size = ground (arith, h) in
    let whole : prefix_diff k l ≡ min k.size l.size =
      elim (dec_lt (prefix_diff k l) (min k.size l.size)) [
        | yes p ↦ absurd (stop p (ground (arith, h, p)))
        | no p ↦ omega (arith, bound)
      ] in
    (
      size,
      omega (arith, whole, size),
      λ q p. nibble_of_bytes k l q (same (q / 2) (omega (arith, whole, size))),
    )

sub64_same : (n : ℕ) → sub64 n n % 2 ^ 32 ≡ 0
sub64_same n = let all : n + 2 ^ 64 - n ≡ 2 ^ 64 = omega arith in ap (λ m. m % 2 ^ 64 % 2 ^ 32) all

-- The test of `internal_emplace` for a key that is already there.
pub keys_equal_iff : (k l : Key) → keys_equal k l ≡ (prefix_diff k l == k.size && l.size == k.size)
unfolding keys_equal compares_equal
keys_equal_iff k l =
    let (bound, same, stop) = prefix_diff_lem k l in
    elim (ℕ_discrete k.size l.size) [
      | no e ↦ ground (arith, e)
      | yes e ↦
          let no_difference : sub64 k.size l.size % 2 ^ 32 ≡ 0 =
            ap (λ n. sub64 k.size n % 2 ^ 32) (sym e) ∙ sub64_same k.size in
          elim (dec_lt (prefix_diff k l) (min k.size l.size)) [
            | yes p ↦ ground (arith, e, p, stop p)
            | no p ↦ ground (arith, e, p, bound, no_difference)
          ]
    ]

pub keys_equal_size : (k l : Key) → k.size ≢ l.size → keys_equal k l ≡ false
unfolding keys_equal
keys_equal_size k l e = ground (arith, e)

pub keys_equal-nibble :
    (k l : Key) (q : ℕ) → q < 2 * k.size → nibble k q ≢ nibble l q → keys_equal k l ≡ false
keys_equal-nibble k l q p e = elim (Bool-cases (keys_equal k l)) [
  | inl same ↦ absurd (e ((keys_equal-true k l same).2 q p))
  | inr differ ↦ differ
]

-- Where a key leaves the keys of a tree: `d` is the first half byte that differs, or the end of the
-- shorter key, and a node below `limit` lies on its way.
pub record Divergence (k l : Key) (diff sh d limit : ℕ) : Type 0 where
  pub below : (q : ℕ) → q < d → nibble k q ≡ nibble l q
  pub split :
      ((diff ≡ min k.size l.size) × (sh ≡ 8) × (d ≡ 2 * diff) × (limit ≡ d))
      ⊎ ((diff < k.size)
          × (diff < l.size)
          × ((sh ≡ 4) ⊎ (sh ≡ 0))
          × (d ≡ position diff sh)
          × (limit ≡ d + 1)
          × (nibble k d ≢ nibble l d))

pub diverge :
    (k l : Key)
    → AreBytes k
    → AreBytes l
    → let diff = prefix_diff k l in
      let sh = bit_diff l k diff in (d : ℕ) × (limit : ℕ) × Divergence k l diff sh d limit
unfolding bit_diff
diverge k l hk hl =
    let diff = prefix_diff k l in
    let (bound, same, stop) = prefix_diff_lem k l in
    elim (dec_lt diff (min k.size l.size)) [
      | no p ↦ (
        2 * diff,
        2 * diff,
        record {
          below = λ q r. nibble_of_bytes k l q (same (q / 2) (omega arith));
          split = inl (omega (arith, bound), ground (arith, p), refl, refl);
        },
      )
      | yes p ↦
          let apart = stop p in
          let slice = sliced (l.byte diff) (k.byte diff) (hl diff) (hk diff) (λ e. apart (sym e)) in
          let chosen : bit_diff l k diff ≡ (if l.byte diff / 16 == k.byte diff / 16 then 0 else 4) =
            ground (arith, p, slice) in
          elim (ℕ_discrete (l.byte diff / 16) (k.byte diff / 16)) [
            | yes e ↦
                let sh : bit_diff l k diff ≡ 0 = ground (arith, chosen, e) in
                (
                  2 * diff + 1,
                  2 * diff + 2,
                  record {
                    below = λ q r. elim (ℕ_discrete q (2 * diff)) [
                      | yes at ↦
                          subst (λ i. nibble k i ≡ nibble l i) (sym at)
                            (nibble_even k diff ∙ sym e ∙ sym (nibble_even l diff))
                      | no before ↦ nibble_of_bytes k l q (same (q / 2) (omega arith))
                    ];
                    split = inr (
                      omega arith,
                      omega arith,
                      inr sh,
                      ground (arith, sh),
                      omega arith,
                      λ z. apart (omega (arith, z, nibble_odd k diff, nibble_odd l diff, e)),
                    );
                  },
                )
            | no e ↦
                let sh : bit_diff l k diff ≡ 4 = ground (arith, chosen, e) in
                (
                  2 * diff,
                  2 * diff + 1,
                  record {
                    below = λ q r. nibble_of_bytes k l q (same (q / 2) (omega arith));
                    split = inr (
                      omega arith,
                      omega arith,
                      inl sh,
                      ground (arith, sh),
                      refl,
                      λ z. e (sym (nibble_even l diff) ∙ sym z ∙ nibble_even k diff),
                    );
                  },
                )
          ]
    ]

-- The loop of `follow_path` goes on exactly at the nodes below the limit.
pub goes_on_lem :
    {V : Type 0} (k l : Key) (diff sh d limit : ℕ)
    → Divergence k l diff sh d limit
    → (byte bit : ℕ) (entry : Tree V) (child : ℕ → Tree V) → (bit ≡ 4) ⊎ (bit ≡ 0)
    → goes_on (node byte bit entry child) diff sh ≡ ltb (position byte bit) limit
unfolding goes_on
goes_on_lem k l diff sh d limit h byte bit entry child (inl upper) = elim h.split [
  | inl (whole, sh8, at, edge) ↦ ground (arith, whole, sh8, at, edge, upper)
  | inr (kin, lin, inl sh4, at, edge, apart) ↦ ground (arith, sh4, at, edge, upper)
  | inr (kin, lin, inr sh0, at, edge, apart) ↦ ground (arith, sh0, at, edge, upper)
]
goes_on_lem k l diff sh d limit h byte bit entry child (inr lower) = elim h.split [
  | inl (whole, sh8, at, edge) ↦ ground (arith, whole, sh8, at, edge, lower)
  | inr (kin, lin, inl sh4, at, edge, apart) ↦ ground (arith, sh4, at, edge, lower)
  | inr (kin, lin, inr sh0, at, edge, apart) ↦ ground (arith, sh0, at, edge, lower)
]
