-- ===== src/StringView/Tests.antt =====
-- Views of a small buffer, on which the searches are run.
use libpmemobj_cpp.Common.{ℕ, zero, suc, ◌+◌, ◌≤◌, ◌<◌, ◌≡◌, ◌⊎◌, refl, arith, true}
use libpmemobj_cpp.StringView.{
  Chars, View, npos, traits_find, traits_compare, find_loop, find, rfind, find_first_of, equals,
}
use libpmemobj_cpp.StringView.Search.{Same, Occurs, find_first}
use libpmemobj_cpp.StringView.Reverse.{Among, rfind_last}
use libpmemobj_cpp.StringView.Forward.{find_first_of_lem, equals_lem}

-- The characters 1, 2, 3, 1, 2, 3 and so on.
abbrev buffer : Chars
buffer zero = 1
buffer (suc zero) = 2
buffer (suc (suc zero)) = 3
buffer (suc (suc (suc i))) = buffer i

abbrev pair : View
pair = record { chars = buffer; size = 2 }

abbrev needle : Chars
needle i = buffer (i + 1)

-- The view ends before the string that is found.
find_past_end : find pair needle 0 2 ≡ 1
unfolding find find_loop traits_find traits_compare
find_past_end = refl

find_first_example :
    ((find pair needle 0 2 ≡ npos) × ((p : ℕ) → 0 ≤ p → ¬ Occurs pair needle 2 p))
    ⊎ ((0 ≤ find pair needle 0 2)
        × (find pair needle 0 2 < 2)
        × Same buffer (find pair needle 0 2) needle 0 2
        × ((p : ℕ) → 0 ≤ p → p < find pair needle 0 2 → ¬ Occurs pair needle 2 p))
find_first_example = find_first pair needle 2 0 (omega arith) (omega arith) (omega arith)

rfind_last_example :
    ((rfind pair needle 5 1 ≡ npos) × ((p : ℕ) → p ≤ 5 → ¬ Occurs pair needle 1 p))
    ⊎ ((rfind pair needle 5 1 ≤ 5)
        × Occurs pair needle 1 (rfind pair needle 5 1)
        × ((p : ℕ) → rfind pair needle 5 1 < p → p ≤ 5 → ¬ Occurs pair needle 1 p))
rfind_last_example = rfind_last pair needle 1 5

find_first_of_lem_example :
    ((find_first_of pair needle 0 2 ≡ npos)
      × ((p : ℕ) → 0 ≤ p → p < 2 → ¬ Among needle 2 (buffer p)))
    ⊎ ((0 ≤ find_first_of pair needle 0 2)
        × (find_first_of pair needle 0 2 < 2)
        × Among needle 2 (buffer (find_first_of pair needle 0 2))
        × ((p : ℕ) → 0 ≤ p → p < find_first_of pair needle 0 2 → ¬ Among needle 2 (buffer p)))
find_first_of_lem_example = find_first_of_lem pair needle 0 2 (omega arith)

equals_lem_example :
    ((equals pair pair ≡ true) → (pair.size ≡ pair.size) × Same buffer 0 buffer 0 2)
    × ((pair.size ≡ pair.size) → Same buffer 0 buffer 0 2 → equals pair pair ≡ true)
equals_lem_example = equals_lem pair pair
