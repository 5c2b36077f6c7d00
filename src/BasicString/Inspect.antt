-- ===== src/BasicString/Inspect.antt =====
-- The public functions of `basic_string` that read the string. The searches are those of a
-- string_view of it.
use libpmemobj_cpp.Common.{
  ℕ, ◌+◌, ◌-◌, min, ◌==◌, ltb, leb, if◌then◌else◌, Bool, false, Option, none, some,
}
use libpmemobj_cpp.Common.Effect.{Result, ok, throws, out_of_range}
use libpmemobj_cpp.StringView.{
  Chars, View, Sign, negative, null, positive, is_null, traits_compare, find as view_find,
  rfind as view_rfind, find_first_of as view_find_first_of,
  find_first_not_of as view_find_first_not_of, find_last_not_of as view_find_last_not_of,
}
use libpmemobj_cpp.BasicString.{BasicString, size, cdata}

-- The characters behind `cdata()`; a slot that was never written reads as 0.
abbrev pub chars : BasicString → Chars
chars s i = elim (cdata s i) [ some ch ↦ ch | none ↦ 0 ]

-- `operator basic_string_view`
unfoldable pub view_of : BasicString → View
unfolding size cdata
view_of s = record { chars = chars s; size = size s }

-- `const_at(n)`
unfoldable pub const_at : BasicString → ℕ → Result (Option ℕ)
unfolding size cdata
const_at s n = if leb (size s) n then throws out_of_range else ok (cdata s n)

-- `copy(s, count, index)`: the number of characters copied, and the destination
unfoldable pub copy : BasicString → Chars → ℕ → ℕ → Result (ℕ × Chars)
unfolding size cdata
copy s dest count index =
    let len = min count (size s - index) in
    if ltb (size s) index
    then throws out_of_range
    else ok (len, λ i. if ltb i len then chars s (index + i) else dest i)

-- The order of two counts
abbrev pub sign_of : ℕ → ℕ → Sign
sign_of a b = if ltb a b then negative else if a == b then null else positive

-- `compare(pos, count1, s, count2)`, to which the other overloads forward
unfoldable pub compare : BasicString → ℕ → ℕ → Chars → ℕ → Result Sign
unfolding size cdata traits_compare
compare s pos count1 other count2 =
    let count = if ltb (size s - pos) count1 then size s - pos else count1 in
    let ret = traits_compare (chars s) pos other 0 (min count count2) in
    if ltb (size s) pos
    then throws out_of_range
    else ok (elim ret [ null ↦ sign_of count count2 | negative ↦ negative | positive ↦ positive ])

-- `operator==`
unfoldable pub equals : BasicString → BasicString → Bool
unfolding compare
equals lhs rhs = elim (compare lhs 0 (size lhs) (chars rhs) (size rhs)) [
  | ok sign ↦ is_null sign
  | throws e ↦ false
]

-- `find(s, pos, count)`
unfoldable pub find : BasicString → Chars → ℕ → ℕ → ℕ
unfolding view_of
find s t pos count = view_find (view_of s) t pos count

-- `rfind(s, pos, count)`
unfoldable pub rfind : BasicString → Chars → ℕ → ℕ → ℕ
unfolding view_of
rfind s t pos count = view_rfind (view_of s) t pos count

-- `find_first_of(s, pos, count)`
unfoldable pub find_first_of : BasicString → Chars → ℕ → ℕ → ℕ
unfolding view_of
find_first_of s t pos count = view_find_first_of (view_of s) t pos count

-- `find_first_not_of(s, pos, count)`
unfoldable pub find_first_not_of : BasicString → Chars → ℕ → ℕ → ℕ
unfolding view_of
find_first_not_of s t pos count = view_find_first_not_of (view_of s) t pos count

-- `find_last_not_of(s, pos, count)`
unfoldable pub find_last_not_of : BasicString → Chars → ℕ → ℕ → ℕ
unfolding view_of
find_last_not_of s t pos count = view_find_last_not_of (view_of s) t pos count
