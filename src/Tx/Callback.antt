-- ===== src/Tx/Callback.antt =====
-- The callbacks of a transaction: `register_callback`, `get_tx_data` and `c_callback` of
-- include/libpmemobj++/transaction.hpp. The user data of libpmemobj is an option, and a callback
-- is a function on the state `W` that it works on.
use libpmemobj_cpp.Common.{
  ℕ, Option, none, some, Bool, true, false, List, [], ◌∷◌, ◌++◌, ◌≡◌, refl, ◌≢◌, sym, subst, ap,
  ◌∙◌, ◌==◌, if◌then◌else◌, arith,
}
use mathlib.Core.List.{append_assoc, append-nil, foldl}
use libpmemobj_cpp.Common.Effect.{transaction_scope_error, ok, throws, Action}
use libpmemobj_cpp.Tx.{Stage, no_tx, work, oncommit, onabort, finally, is_work}

-- `static_cast<size_t>(stg)`
abbrev pub stage_index : Stage → ℕ
stage_index no_tx = 0
stage_index work = 1
stage_index oncommit = 2
stage_index onabort = 3
stage_index finally = 4

abbrev pub is_finally : Stage → Bool
is_finally finally = true
is_finally _ = false

-- The two stages are the same.
abbrev pub is_stage : Stage → Stage → Bool
is_stage no_tx no_tx = true
is_stage work work = true
is_stage oncommit oncommit = true
is_stage onabort onabort = true
is_stage finally finally = true
is_stage _ _ = false

stage_index-is_stage : (at stg : Stage) → (stage_index at == stage_index stg) ≡ is_stage at stg
stage_index-is_stage no_tx no_tx = refl
stage_index-is_stage no_tx work = refl
stage_index-is_stage no_tx oncommit = refl
stage_index-is_stage no_tx onabort = refl
stage_index-is_stage no_tx finally = refl
stage_index-is_stage work no_tx = refl
stage_index-is_stage work work = refl
stage_index-is_stage work oncommit = refl
stage_index-is_stage work onabort = refl
stage_index-is_stage work finally = refl
stage_index-is_stage oncommit no_tx = refl
stage_index-is_stage oncommit work = refl
stage_index-is_stage oncommit oncommit = refl
stage_index-is_stage oncommit onabort = refl
stage_index-is_stage oncommit finally = refl
stage_index-is_stage onabort no_tx = refl
stage_index-is_stage onabort work = refl
stage_index-is_stage onabort oncommit = refl
stage_index-is_stage onabort onabort = refl
stage_index-is_stage onabort finally = refl
stage_index-is_stage finally no_tx = refl
stage_index-is_stage finally work = refl
stage_index-is_stage finally oncommit = refl
stage_index-is_stage finally onabort = refl
stage_index-is_stage finally finally = refl

-- `tx_data::callbacks`, an array of vectors indexed by the stage.
abbrev pub Callbacks : Type 0 → Type 0
Callbacks W = ℕ → List (W → W)

module _ {W : Type 0} where
  -- `get_tx_data`: the data is made on first use.
  unfoldable pub get_tx_data : Option (Callbacks W) → Callbacks W
  get_tx_data none = λ _. []
  get_tx_data (some callbacks) = callbacks

  unfoldable pub push_back : ℕ → (W → W) → Callbacks W → Callbacks W
  push_back i cb callbacks j = if i == j then callbacks j ++ (cb ∷ []) else callbacks j

  -- `register_callback`, called at the stage `now`.
  unfoldable pub register_callback :
      Stage → Stage → (W → W) → Action (Option (Callbacks W)) (Unit {0})
  register_callback now stg cb user =
      if is_work now
      then (ok tt, some (push_back (stage_index stg) cb (get_tx_data user)))
      else (throws transaction_scope_error, user)

  -- `for (auto &cb : data->callbacks[obj_stage]) cb();`
  unfoldable pub call_all : List (W → W) → W → W
  call_all [] w = w
  call_all (cb ∷ cbs) w = call_all cbs (cb w)

  called : Stage → Option (Callbacks W) → W → Option (Callbacks W) × W
  called stg none w = (none, w)
  called stg (some callbacks) w =
      (if is_finally stg then none else some callbacks, call_all (callbacks (stage_index stg)) w)

  -- `c_callback`, which libpmemobj calls when the outermost transaction enters a stage.
  unfoldable pub c_callback : Stage → Option (Callbacks W) → W → Option (Callbacks W) × W
  unfolding called
  c_callback no_tx user w = (user, w)
  c_callback stg user w = called stg user w

  -- The registrations of a transaction's function, one after the other.
  unfoldable pub register_all : List (Stage × (W → W)) → Option (Callbacks W) → Option (Callbacks W)
  register_all [] user = user
  register_all ((stg, cb) ∷ regs) user = register_all regs (register_callback work stg cb user).1

  -- Those that are for one stage, in order.
  pub for_stage : Stage → List (Stage × (W → W)) → List (W → W)
  for_stage stg [] = []
  for_stage stg ((at, cb) ∷ regs) =
      if is_stage at stg then cb ∷ for_stage stg regs else for_stage stg regs

  -- What a list of callbacks does, the first one first
  abbrev pub one_by_one : List (W → W) → W → W
  one_by_one cbs w = foldl (λ x cb. cb x) w cbs

  call_all-one_by_one : (cbs : List (W → W)) (w : W) → call_all cbs w ≡ one_by_one cbs w
  unfolding call_all
  call_all-one_by_one [] w = refl
  call_all-one_by_one (cb ∷ cbs) w = call_all-one_by_one cbs (cb w)

  get_tx_data-register_all :
      (stg : Stage) (regs : List (Stage × (W → W))) (user : Option (Callbacks W))
      → get_tx_data (register_all regs user) (stage_index stg)
        ≡ get_tx_data user (stage_index stg) ++ for_stage stg regs
  unfolding register_all register_callback is_work for_stage push_back get_tx_data
  get_tx_data-register_all stg [] user = sym (append-nil _)
  get_tx_data-register_all stg ((at, cb) ∷ regs) user = ground (
    arith,
    stage_index-is_stage at stg,
    get_tx_data-register_all stg regs (register_callback work at cb user).1,
    append_assoc (get_tx_data user (stage_index stg)) (cb ∷ []) (for_stage stg regs),
  )

  called-calls :
      (stg : Stage) (user : Option (Callbacks W)) (w : W)
      → (called stg user w).1 ≡ call_all (get_tx_data user (stage_index stg)) w
  unfolding called get_tx_data call_all
  called-calls stg none w = refl
  called-calls stg (some callbacks) w = refl

  freed : (user : Option (Callbacks W)) (w : W) → (called finally user w).0 ≡ none
  unfolding called
  freed none w = refl
  freed (some callbacks) w = refl

  called_in_order :
      (stg : Stage) (regs : List (Stage × (W → W))) (w : W)
      → (called stg (register_all regs none) w).1 ≡ one_by_one (for_stage stg regs) w
  unfolding get_tx_data
  called_in_order stg regs w =
      called-calls stg (register_all regs none) w
      ∙ ap (λ cbs. call_all cbs w) (get_tx_data-register_all stg regs none)
      ∙ call_all-one_by_one (for_stage stg regs) w

  c_callback-called :
      (stg : Stage) (user : Option (Callbacks W)) (w : W)
      → stg ≢ no_tx
      → c_callback stg user w ≡ called stg user w
  unfolding c_callback
  c_callback-called no_tx user w real = absurd (real refl)
  c_callback-called work user w real = refl
  c_callback-called oncommit user w real = refl
  c_callback-called onabort user w real = refl
  c_callback-called finally user w real = refl

  stays :
      (stg : Stage) (user : Option (Callbacks W)) (w : W)
      → stg ≢ finally
      → (called stg user w).0 ≡ user
  unfolding called
  stays stg none w other = refl
  stays no_tx (some callbacks) w other = refl
  stays work (some callbacks) w other = refl
  stays oncommit (some callbacks) w other = refl
  stays onabort (some callbacks) w other = refl
  stays finally (some callbacks) w other = absurd (other refl)

  -- When a transaction in which callbacks were registered, for any stages and in any order, enters a
  -- stage that is not NONE: the callbacks registered for that stage, and no others, are called one
  -- by one in the order of their registration. All callbacks are kept for the next stage, but after
  -- FINALLY they are freed.
  pub c_callback_in_order :
      (stg : Stage) (regs : List (Stage × (W → W))) (w : W)
      → stg ≢ no_tx
      → ((c_callback stg (register_all regs none) w).1 ≡ one_by_one (for_stage stg regs) w)
        × (stg ≢ finally → (c_callback stg (register_all regs none) w).0 ≡ register_all regs none)
        × (stg ≡ finally → (c_callback stg (register_all regs none) w).0 ≡ none)
  c_callback_in_order stg regs w real =
      let user = register_all regs none in
      let direct = c_callback-called stg user w real in
      (
        ap (λ o. o.1) direct ∙ called_in_order stg regs w,
        λ other. ap (λ o. o.0) direct ∙ stays stg user w other,
        λ last.
            ap (λ o. o.0) direct
            ∙ subst (λ g. (called g user w).0 ≡ none) (sym last) (freed user w),
      )
