-- ===== src/Common/Cases.antt =====
-- What an equation of options says.
use libpmemobj_cpp.Common.{◌≡◌, some, arith}

pub some-injective : {A : Type 0} {a b : A} → some a ≡ some b → a ≡ b
some-injective h = ground (arith, h)
