-- ===== src/BasicString/Exchange.antt =====
-- The functions of `basic_string` that change two different strings: the assignment that moves, and
-- `swap`. The state is `*this` and `other`.
use libpmemobj_cpp.Common.{ℕ, ltb, leb, not, ◌&&◌, if◌then◌else◌, false, none, List, []}
use libpmemobj_cpp.Common.Effect.{Action, ok, throws, pass, ◌>>◌, modify}
use libpmemobj_cpp.Vector.{Env}
use libpmemobj_cpp.BasicString.{BasicString, range, fill, size, cdata, sso_capacity}
use libpmemobj_cpp.BasicString.Representation.{
  enable_sso, disable_sso, empty_vector, add_range, destroy_data, assign_sso_data, initialize,
  replace_content, copied,
}

abbrev pub Two : Type 0
Two = BasicString × BasicString

-- `flat_transaction::run` for both strings, as for one
abbrev pub transaction_of_two : Action Two (Unit {0}) → Action Two (Unit {0})
transaction_of_two tx p =
    let (r, q) = tx (record p.0 { added = [] }, record p.1 { added = [] }) in
    elim r [ ok _ ↦ (ok tt, q) | throws e ↦ (throws e, p) ]

-- A call on `*this`, and one on `other`
abbrev pub on_this : Action BasicString (Unit {0}) → Action Two (Unit {0})
on_this m p = let (r, s) = m p.0 in (r, (s, p.1))

abbrev pub on_other : Action BasicString (Unit {0}) → Action Two (Unit {0})
on_other m p = let (r, s) = m p.1 in (r, (p.0, s))

-- All characters of a string
abbrev pub characters : Env ℕ → BasicString → List ℕ
characters env s = copied env (size s) (cdata s)

module _ (env : Env ℕ) where
  -- `non_sso_data() = std::move(other.non_sso_data())` of a vector without elements
  abbrev pub move_vector : Two → Two
  move_vector p = (
    record p.0 { non_sso = p.1.non_sso },
    record p.1 {
      non_sso = record p.1.non_sso { has_data = false; block = λ _. none; size = 0; capacity = 0 };
    },
  )

  unfoldable pub move_data : Action Two (Unit {0})
  unfolding enable_sso disable_sso add_range assign_sso_data initialize size cdata
  move_data p =
      let short = (do
        on_this (modify enable_sso)
        on_this (assign_sso_data env (range (characters env p.1)))) in
      let long = (do
        on_this (modify disable_sso)
        on_this (add_range env (record { first = 0; count = 1; snapshot = false }))
        on_this (modify (λ s. record s { non_sso = empty_vector }))
        modify move_vector) in
      (do
        if leb (size p.1) sso_capacity then short else long
        if p.1.sso then on_other (initialize env (fill 0 0)) else pass tt)
        p

  -- `assign(basic_string &&other)`
  unfoldable pub assign_move : Action Two (Unit {0})
  unfolding move_data destroy_data
  assign_move = transaction_of_two (do on_this (destroy_data env); move_data)

  -- What `swap` does to a short string, `on_short`, and a long one: the short one is assigned the
  -- long one, and the long one what the short one held.
  abbrev pub swap_unlike :
      (Action BasicString (Unit {0}) → Action Two (Unit {0}))
      → (Action BasicString (Unit {0}) → Action Two (Unit {0}))
      → BasicString
      → BasicString
      → Action Two (Unit {0})
  swap_unlike on_short on_long short long = do
    on_short (replace_content env (range (characters env long)))
    on_long (replace_content env (range (characters env short)))

  -- `swap`
  unfoldable pub swap : Action Two (Unit {0})
  unfolding size cdata replace_content
  swap =
      let swap_arrays : Two → Two = λ p. (
        record p.0 { sso_data = p.1.sso_data; sso_size = p.1.sso_size },
        record p.1 { sso_data = p.0.sso_data; sso_size = p.0.sso_size },
      ) in
      let swap_vectors : Two → Two =
        λ p. (record p.0 { non_sso = p.1.non_sso }, record p.1 { non_sso = p.0.non_sso }) in
      transaction_of_two (λ p.
        if p.0.sso && p.1.sso
        then (ok tt, swap_arrays p)
        else if not p.0.sso && not p.1.sso
        then (ok tt, swap_vectors p)
        else if ltb (size p.1) (size p.0)
        then swap_unlike on_other on_this p.1 p.0 p
        else swap_unlike on_this on_other p.0 p.1 p)
