-- ===== src/Common/Effect.antt =====
-- Code that may throw: a result, and a state that survives the exception.
use libpmemobj_cpp.Common.{ℕ, ◌≡◌, refl, ap, Bool, true, false, if◌then◌else◌}

-- The exceptions of include/libpmemobj++/pexceptions.hpp and of the standard library that the
-- modelled code throws; `user` is one of the code that calls it.
pub data Exn : Type 0 where
  transaction_error transaction_scope_error transaction_out_of_memory : Exn
  transaction_alloc_error transaction_free_error pool_error : Exn
  out_of_range length_error runtime_error : Exn
  manual_tx_abort user : ℕ → Exn

pub data Result {ℓ} (A : Type ℓ) : Type ℓ where
  ok : A → Result A
  throws : Exn → Result A

-- What code with the state `S` does: its result, and the state it leaves behind.
abbrev pub Action {ℓ} : Type ℓ → Type 0 → Type ℓ
Action S A = S → Result A × S

abbrev pub pass {ℓ} : {S : Type ℓ} {A : Type 0} → A → Action S A
pass a s = (ok a, s)

abbrev pub throw {ℓ} : {S : Type ℓ} {A : Type 0} → Exn → Action S A
throw e s = (throws e, s)

infixl 5 ◌>>=◌ ◌>>◌
abbrev pub ◌>>=◌ {ℓ} :
    {S : Type ℓ} {A : Type 0} {B : Type 0} → Action S A → (A → Action S B) → Action S B
◌>>=◌ m f s = let (r, t) = m s in elim r [ ok a ↦ f a t | throws e ↦ (throws e, t) ]

abbrev pub ◌>>◌ {ℓ} : {S : Type ℓ} {B : Type 0} → Action S (Unit {0}) → Action S B → Action S B
m >> k = m >>= λ _. k

-- A step that always returns.
abbrev pub modify {ℓ} : {S : Type ℓ} → (S → S) → Action S (Unit {0})
modify f s = (ok tt, f s)

abbrev pub read {ℓ} : {S : Type ℓ} {A : Type 0} → (S → A) → Action S A
read f s = (ok (f s), s)

-- The destructor of a local object runs on both ways out of a scope.
abbrev pub finally_do {ℓ} : {S : Type ℓ} {A : Type 0} → Action S A → (S → S) → Action S A
finally_do m dtor s = let (r, t) = m s in (r, dtor t)

-- A step that returns hands its state to the rest.
pub run-then {ℓ} :
    {S : Type ℓ} {B : Type 0} (m : Action S (Unit {0})) (k : Action S B) {s t : S}
    → m s ≡ (ok tt, t)
    → (m >> k) s ≡ k t
run-then m k e = ap (λ o. elim o.0 [ ok a ↦ k o.1 | throws x ↦ (throws x, o.1) ]) e

-- The branch of a test that is taken
pub run-true {ℓ} :
    {S : Type ℓ} {A : Type 0} (b : Bool) (m n : Action S A) (s : S)
    → b ≡ true
    → (if b then m else n) s ≡ m s
run-true true m n s h = refl
run-true false m n s h = cc

pub run-false {ℓ} :
    {S : Type ℓ} {A : Type 0} (b : Bool) (m n : Action S A) (s : S)
    → b ≡ false
    → (if b then m else n) s ≡ n s
run-false true m n s h = cc
run-false false m n s h = refl
