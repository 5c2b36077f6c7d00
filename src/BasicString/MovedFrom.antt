-- ===== src/BasicString/MovedFrom.antt =====
-- A long string that is moved from, and what happens to characters that are appended to it.
use libpmemobj_cpp.Common.{
  ℕ, ◌-◌, ◌≤◌, ◌<◌, ◌≡◌, refl, subst, sym, inr, false, none, leb, List, [], length, arith,
  length-append,
}
use libpmemobj_cpp.Common.Words.{add64}
use libpmemobj_cpp.Common.Effect.{Result, ok}
use libpmemobj_cpp.Vector.{Env}
use libpmemobj_cpp.Vector.Content.{NoFailure}
use libpmemobj_cpp.Vector.Insertion.{insert_range_contents}
use libpmemobj_cpp.Vector.Private.{get_recommended_capacity}
use libpmemobj_cpp.Vector.Insert.{insert_range}
use libpmemobj_cpp.BasicString.{BasicString, range, size, sso_capacity, get_size}
use libpmemobj_cpp.BasicString.Representation.{disable_sso}
use libpmemobj_cpp.BasicString.Modify.{append}
use libpmemobj_cpp.BasicString.Content.{Large, Text, add_range-OnlyAdds}
use libpmemobj_cpp.BasicString.Building.{destroy_data_lem}
use libpmemobj_cpp.BasicString.Blocks.{Fits}
use libpmemobj_cpp.BasicString.Rebuilding.{size-Text}
use libpmemobj_cpp.BasicString.Insertion.{not-too_long}
use libpmemobj_cpp.BasicString.Exchange.{Two, move_data, assign_move}

-- A long string without a vector's memory
abbrev pub emptied : BasicString → BasicString
emptied s = record s {
  added = [];
  non_sso = record s.non_sso { has_data = false; block = λ _. none; size = 0; capacity = 0 };
}

size_of : (s : BasicString) (n : ℕ) → s.sso ≡ false → s.non_sso.size ≡ n → 0 < n → size s ≡ n - 1
unfolding size
size_of s n long e p = ground (arith, long, e)

module _ (env : Env ℕ) (safe : NoFailure env) where
  move_data-long :
      (s other : BasicString) (xs : List ℕ)
      → Large other xs
      → sso_capacity < length xs
      → (t : BasicString) × (move_data env (s, other)
          ≡ (ok tt, (t, record (emptied other) { added = other.added })))
        × Large t xs
  unfolding move_data disable_sso
  move_data-long s other xs h long =
      let sz = size-Text other xs (inr h) in
      let test : leb (size other) sso_capacity ≡ false = ground (arith, sz) in
      let (log, e) =
        add_range-OnlyAdds env safe (record { first = 0; count = 1; snapshot = false })
          (record s { sso = false }) in
      (
        record s { sso = false; added = log; non_sso = other.non_sso },
        ground (arith, test, h.0, e),
        (refl, h.1),
      )

  assign_move-long :
      (s other : BasicString) (xs : List ℕ)
      → Large other xs
      → sso_capacity < length xs
      → (t : BasicString) × (assign_move env (s, other) ≡ (ok tt, (t, emptied other))) × Large t xs
  unfolding assign_move
  assign_move-long s other xs h long =
      let (u, freed) = destroy_data_lem env safe (record s { added = [] }) in
      let (t, run, text) = move_data-long u (record other { added = [] }) xs h long in
      (t, ground (arith, freed, run), text)

  append-emptied :
      (other : BasicString) (ys : List ℕ)
      → other.sso ≡ false
      → 0 < length ys
      → Fits env (length ys)
      → get_recommended_capacity (length ys) ≤ env.max_size
      → ((append env (range ys) (emptied other)).0 ≡ ok tt)
        × (size (append env (range ys) (emptied other)).1 ≡ length ys - 1)
  unfolding append size get_size
  append-emptied other ys long some_source fits allowed =
      let v = (emptied other).non_sso in
      let n : add64 0 (length ys) ≡ length ys = omega (arith, fits.1) in
      let enough = not-too_long env (length ys) fits in
      let (run, held, room) =
        insert_range_contents env v [] ys [] safe (refl, tt) some_source
          (subst (λ k. get_recommended_capacity k ≤ env.max_size) (omega arith) allowed)
          (omega (arith, fits.1)) in
      let out = insert_range env 0 ys v in
      let direct : append env (range ys) (emptied other)
          ≡ (out.0, record (emptied other) { non_sso = out.1 }) =
        ground (arith, long, n, enough) in
      subst (λ (o : Result (Unit {0}) × BasicString). (o.0 ≡ ok tt) × (size o.1 ≡ length ys - 1))
        (sym direct)
        (
          run,
          size_of (record (emptied other) { non_sso = out.1 }) (length ys) long
              (omega (arith, held.0, length-append ys [])) some_source,
        )

-- The assignment that moves a string of more than 23 characters, when no call of libpmemobj fails:
-- it returns, the string assigned has the text, and the one moved from has the size 0; but if a
-- range of at least one character is appended to that one, and a vector may hold it, then append
-- returns and the size is one less than the number of characters.
pub append_to_moved_from :
    (env : Env ℕ) (s other : BasicString) (xs ys : List ℕ)
    → NoFailure env
    → Large other xs
    → sso_capacity < length xs
    → 0 < length ys
    → Fits env (length ys)
    → get_recommended_capacity (length ys) ≤ env.max_size
    → ((assign_move env (s, other)).0 ≡ ok tt)
      × Text (assign_move env (s, other)).1.0 xs
      × (size (assign_move env (s, other)).1.1 ≡ 0)
      × ((append env (range ys) (assign_move env (s, other)).1.1).0 ≡ ok tt)
      × (size (append env (range ys) (assign_move env (s, other)).1.1).1 ≡ length ys - 1)
unfolding size
append_to_moved_from env s other xs ys safe h long some_source fits allowed =
    let (t, run, text) = assign_move-long env safe s other xs h long in
    let (returns, short) = append-emptied env safe other ys h.0 some_source fits allowed in
    subst
      (λ (o : Result (Unit {0}) × Two).
        (o.0 ≡ ok tt)
        × Text o.1.0 xs
        × (size o.1.1 ≡ 0)
        × ((append env (range ys) o.1.1).0 ≡ ok tt)
        × (size (append env (range ys) o.1.1).1 ≡ length ys - 1))
      (sym run) (refl, inr text, rw h.0 refl, returns, short)
