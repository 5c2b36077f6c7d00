-- ===== src/BasicString/Tests.antt =====
-- Strings that hold "hi" in the array and a longer text in the vector, on which the theorems are
-- run. `a` stands for any character.
use libpmemobj_cpp.Common.{
  ℕ, zero, suc, ◌+◌, ◌≡◌, ◌≤◌, ◌<◌, ◌↔◌, refl, inl, inr, true, false, none, some, List, [], ◌∷◌,
  ◌++◌, length, replicate, map, arith,
}
use libpmemobj_cpp.Common.Effect.{ok, throws, out_of_range}
use libpmemobj_cpp.Math.{next_pow_2, smear}
use libpmemobj_cpp.Math.PowerOfTwo.{next_pow_2_lem}
use libpmemobj_cpp.Vector.{Block, Env}
use libpmemobj_cpp.Vector.Cells.{At, create_all, create_all-At}
use libpmemobj_cpp.Vector.Content.{NoFailure}
use libpmemobj_cpp.Vector.Private.{get_recommended_capacity}
use libpmemobj_cpp.BasicString.{BasicString, range, fill, size, cdata}
use libpmemobj_cpp.BasicString.Representation.{empty_vector}
use libpmemobj_cpp.BasicString.Modify.{construct, append, shrink_to_fit}
use libpmemobj_cpp.BasicString.Inspect.{equals}
use libpmemobj_cpp.BasicString.Exchange.{assign_move}
use libpmemobj_cpp.BasicString.Content.{Large, Text, GivesText}
use libpmemobj_cpp.BasicString.Blocks.{Fits}
use libpmemobj_cpp.BasicString.Sizes.{construct_contents, string_shrink_to_fit_contents}
use libpmemobj_cpp.BasicString.Equality.{string_equals_lem}
use libpmemobj_cpp.BasicString.MovedFrom.{append_to_moved_from}
use libpmemobj_cpp.BasicString.History.{
  Operation, appending, inserting, erasing, replacing, shrinking, perform_all, promised_all, AllFit,
  string_operations_refine,
}

abbrev working : Env ℕ
working = record {
  max_size = 1000;
  tx_alloc = λ _. none;
  tx_free = none;
  xadd = λ _. none;
  trivially_destructible = true;
  moved_from = λ x. x;
}

abbrev hi : List ℕ
hi = b'h' ∷ b'i' ∷ []

abbrev hi_slots : Block ℕ
hi_slots zero = some b'h'
hi_slots (suc zero) = some b'i'
hi_slots (suc (suc zero)) = some 0
hi_slots (suc (suc (suc k))) = none

abbrev short_string : BasicString
short_string = record {
  sso = true;
  sso_size = 2;
  sso_data = hi_slots;
  non_sso = empty_vector;
  added = [];
}

short_string-Text : Text short_string hi
short_string-Text = inl (refl, refl, omega arith, (refl, (refl, (refl, tt))))

two : get_recommended_capacity 2 ≤ 1000
unfolding get_recommended_capacity next_pow_2 smear
two = omega arith

never_fails : NoFailure working
never_fails = (λ _. refl, refl, λ _. refl)

-- A text of 30 characters, which is long
abbrev many : ℕ → List ℕ
many n = replicate n b'a'

fits : (n : ℕ) → n < 400 → Fits working n
unfolding get_recommended_capacity
fits n h =
    let (m, e, low, high) = next_pow_2_lem (n + 1) (omega arith) (omega arith) in
    (omega (arith, e, high), omega arith)

long_slots : Block ℕ
unfolding create_all
long_slots = create_all 0 (map some (many 30 ++ 0 ∷ [])) (λ _. none)

abbrev long_string : BasicString
long_string = record short_string {
  sso = false;
  non_sso = record { has_data = true; block = long_slots; size = 31; capacity = 31; added = [] };
}

long_string-Large : Large long_string (many 30)
unfolding long_slots
long_string-Large =
    (refl, ((refl, create_all-At 0 (many 30 ++ 0 ∷ []) (λ _. none)), omega arith, refl))

abbrev script : List Operation
script =
    appending (fill 30 b'a')
    ∷ inserting 1 (range (b'-' ∷ []))
    ∷ erasing 50 1
    ∷ erasing 3 30
    ∷ shrinking
    ∷ replacing 0 1 (fill 3 b'x')
    ∷ []

script_text : promised_all script hi ≡ (
  ok tt ∷ ok tt ∷ throws out_of_range ∷ ok tt ∷ ok tt ∷ ok tt ∷ [],
  b'x' ∷ b'x' ∷ b'x' ∷ b'-' ∷ b'i' ∷ [],
)
unfolding promised_all
script_text = refl

script_fits : AllFit working script hi
unfolding AllFit
script_fits = (
  fits 2 (omega arith),
  (
    fits 32 (omega arith),
    (
      fits 33 (omega arith),
      (fits 33 (omega arith), (fits 3 (omega arith), (fits 3 (omega arith), fits 5 (omega arith)))),
    ),
  ),
)

string_operations_refine_example :
    ((perform_all working script short_string).0 ≡ (promised_all script hi).0)
    × (size (perform_all working script short_string).1 ≡ length (promised_all script hi).1)
    × At
        (cdata (perform_all working script short_string).1)
        0
        ((promised_all script hi).1 ++ 0 ∷ [])
string_operations_refine_example =
    string_operations_refine working never_fails (λ x. refl) (omega arith) script short_string hi
      short_string-Text script_fits

construct_contents_example :
    GivesText (construct working (fill 24 b'a') short_string) (many 24)
    × ((construct working (fill 24 b'a') short_string).1.sso ≡ false)
construct_contents_example =
    construct_contents working never_fails short_string (fill 24 b'a') (omega arith)

string_shrink_to_fit_contents_example :
    GivesText (shrink_to_fit working long_string) (many 30)
    × ((shrink_to_fit working long_string).1.sso ≡ false)
string_shrink_to_fit_contents_example =
    string_shrink_to_fit_contents working never_fails long_string (many 30) (inr long_string-Large)
      (omega arith) (omega arith)

string_equals_lem_example : (equals short_string long_string ≡ true) ↔ (hi ≡ many 30)
string_equals_lem_example =
    string_equals_lem short_string long_string hi (many 30) short_string-Text
      (inr long_string-Large)

append_to_moved_from_example :
    ((assign_move working (short_string, long_string)).0 ≡ ok tt)
    × Text (assign_move working (short_string, long_string)).1.0 (many 30)
    × (size (assign_move working (short_string, long_string)).1.1 ≡ 0)
    × ((append working (range hi) (assign_move working (short_string, long_string)).1.1).0 ≡ ok tt)
    × (size (append working (range hi) (assign_move working (short_string, long_string)).1.1).1 ≡ 1)
append_to_moved_from_example =
    append_to_moved_from working short_string long_string (many 30) hi never_fails long_string-Large
      (omega arith) (omega arith) (fits 2 (omega arith)) two
