-- ===== src/Vector.antt =====
-- include/libpmemobj++/container/vector.hpp: the persistent vector. A block of memory is a function
-- from slots to what they hold, and every public function runs in a flat transaction.
pub mod Cells
pub mod Private
pub mod Insert
pub mod Content
pub mod Moves
pub mod Insertion
pub mod Sizes
pub mod Assignment
pub mod Presence
mod Tests
pub mod Modify
use libpmemobj_cpp.Common.{ℕ, Bool, Option, List, []}
use libpmemobj_cpp.Common.Effect.{Action, ok, throws}
use libpmemobj_cpp.Snapshot.{Range}

-- What a slot holds; `none` is raw memory, or an element that has been destroyed.
abbrev pub Block : Type 0 → Type 0
Block A = ℕ → Option A

-- `_data == nullptr` is `has_data ≡ false`. The last field is the part of the transaction's log
-- that the vector added.
pub record Vector (A : Type 0) : Type 0 where
  pub has_data : Bool
  pub block : Block A
  pub size : ℕ
  pub capacity : ℕ
  pub added : List Range

-- What the vector gets from libpmemobj and from the element type: the errno of a call that fails,
-- `max_size()`, whether `T` is trivially destructible, and what moving from an element leaves.
pub record Env (A : Type 0) : Type 0 where
  pub max_size : ℕ
  pub tx_alloc : ℕ → Option ℕ
  pub tx_free : Option ℕ
  pub xadd : Range → Option ℕ
  pub trivially_destructible : Bool
  pub moved_from : A → A

-- `flat_transaction::run(pb, ...)` as an outermost transaction, by its contract (`Tx.Atomic`): the
-- log is empty at the begin, and if the function throws the vector is as it was.
abbrev pub transaction : {A : Type 0} → Action (Vector A) (Unit {0}) → Action (Vector A) (Unit {0})
transaction tx v =
    let (r, t) = tx (record v { added = [] }) in
    elim r [ ok _ ↦ (ok tt, t) | throws e ↦ (throws e, v) ]
