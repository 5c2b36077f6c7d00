-- ===== src/BasicString.antt =====
-- include/libpmemobj++/container/basic_string.hpp for `char` (container/string.hpp): a string keeps
-- up to 23 characters in itself, and a longer one in a persistent vector.
pub mod Representation
pub mod Modify
pub mod Inspect
pub mod Content
pub mod Blocks
pub mod Building
pub mod Rebuilding
pub mod Edits
pub mod Insertion
pub mod Erasure
pub mod Replacement
pub mod Sizes
pub mod Equality
pub mod Exchange
pub mod MovedFrom
pub mod History
mod Tests
use libpmemobj_cpp.Common.{
  ℕ, ◌+◌, ◌-◌, ◌==◌, if◌then◌else◌, Bool, Option, none, some, List, [], map, length, replicate,
}
use libpmemobj_cpp.Common.Words.{sub64}
use libpmemobj_cpp.Common.Effect.{Action, ok, throws, modify}
use libpmemobj_cpp.Snapshot.{Range}
use libpmemobj_cpp.Vector.{Block, Vector, Env}

-- `sso_capacity`, which is (32 - 8) / sizeof(CharT) - 1
abbrev pub sso_capacity : ℕ
sso_capacity = 23

-- The union. `_size` is the first word of both of its members, and its highest bit, `sso`, tells
-- which is active: `sso_size` is the rest of the word if it is set, and `non_sso.size` is the word
-- if not. `added` is the part of the transaction's log that the string added for its own array.
pub record BasicString : Type 0 where
  pub sso : Bool
  pub sso_size : ℕ
  pub sso_data : Block ℕ
  pub non_sso : Vector ℕ
  pub added : List Range

-- `flat_transaction::run(pop, ...)` as an outermost transaction, by its contract, as for a vector
abbrev pub transaction : Action BasicString (Unit {0}) → Action BasicString (Unit {0})
transaction tx s =
    let (r, t) = tx (record s { added = [] }) in
    elim r [ ok _ ↦ (ok tt, t) | throws e ↦ (throws e, s) ]

-- A call on `non_sso_data()`
abbrev pub on_large : Action (Vector ℕ) (Unit {0}) → Action BasicString (Unit {0})
on_large m s = let (r, v) = m s.non_sso in (r, record s { non_sso = v })

-- What the two overloads of most functions take their characters from: a range outside the string,
-- or a count and a character.
pub data Source : Type 0 where
  range : List ℕ → Source
  fill : ℕ → ℕ → Source

-- The characters of a source
abbrev pub values : Source → List ℕ
values (range xs) = xs
values (fill count ch) = replicate count ch

-- `get_size`
unfoldable pub get_size : Source → ℕ
get_size (range xs) = length xs
get_size (fill count ch) = count

unfoldable pub size : BasicString → ℕ
size s = if s.sso then s.sso_size else if s.non_sso.size == 0 then 0 else s.non_sso.size - 1

unfoldable pub capacity : BasicString → ℕ
capacity s = if s.sso then sso_capacity else sub64 s.non_sso.capacity 1

-- `max_size`: `vector::max_size` is PMEMOBJ_MAX_ALLOC_SIZE / sizeof(CharT).
unfoldable pub max_size : Env ℕ → ℕ
max_size env = env.max_size - 1

-- `cdata`
unfoldable pub cdata : BasicString → Block ℕ
cdata s = if s.sso then s.sso_data else s.non_sso.block
