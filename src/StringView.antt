-- ===== src/StringView.antt =====
-- include/libpmemobj++/string_view.hpp: a view of characters that it does not own.
pub mod Search
pub mod Reverse
pub mod Forward
mod Tests
use libpmemobj_cpp.Common.{
  ℕ, zero, suc, ◌+◌, ◌-◌, min, ◌==◌, ltb, leb, if◌then◌else◌, Bool, true, false, not, Option, none,
  some, ◌^◌,
}
use libpmemobj_cpp.Common.Words.{add64, sub64}
use libpmemobj_cpp.Common.Effect.{Exn, out_of_range, Result, ok, throws}

-- The memory from an address on. It does not end where a view of it ends.
abbrev pub Chars : Type 0
Chars = ℕ → ℕ

pub record View : Type 0 where
  pub chars : Chars
  pub size : ℕ

-- `static_cast<size_type>(-1)`
abbrev pub npos : ℕ
npos = 2 ^ 64 - 1

-- `std::char_traits::find` on `n` characters from index `i` on
unfoldable pub traits_find : Chars → ℕ → ℕ → ℕ → Option ℕ
traits_find d i zero c = none
traits_find d i (suc n) c =
    let rest = traits_find d (i + 1) n c in if d i == c then some i else rest

-- The sign of an `int`, as `std::char_traits::compare` returns it
pub data Sign : Type 0 where
  negative null positive : Sign

abbrev pub is_null : Sign → Bool
is_null null = true
is_null _ = false

-- `std::char_traits::compare` on `n` characters of `d` from `i` on and of `s` from `j` on
unfoldable pub traits_compare : Chars → ℕ → Chars → ℕ → ℕ → Sign
traits_compare d i s j zero = null
traits_compare d i s j (suc n) =
    let rest = traits_compare d (i + 1) s (j + 1) n in
    if ltb (d i) (s j) then negative else if ltb (s j) (d i) then positive else rest

unfoldable pub at : View → ℕ → Result ℕ
at v pos = if leb v.size pos then throws out_of_range else ok (v.chars pos)

unfoldable pub remove_prefix : View → ℕ → View
remove_prefix v n = record { chars = λ i. v.chars (n + i); size = sub64 v.size n }

unfoldable pub remove_suffix : View → ℕ → View
remove_suffix v n = record v { size = sub64 v.size n }

unfoldable pub substr : View → ℕ → ℕ → Result View
substr v pos count =
    if ltb v.size pos
    then throws out_of_range
    else ok (record { chars = λ i. v.chars (pos + i); size = min count (v.size - pos) })

-- `copy`: the number of characters copied, and the destination.
unfoldable pub copy : View → Chars → ℕ → ℕ → Result (ℕ × Chars)
copy v dest count pos =
    if ltb v.size pos
    then throws out_of_range
    else let rlen = min count (v.size - pos) in
      ok (rlen, λ i. if ltb i rlen then v.chars (pos + i) else dest i)

-- `compare(other)`
unfoldable pub compare : View → View → Sign
compare v other = elim (traits_compare v.chars 0 other.chars 0 (min v.size other.size)) [
  | negative ↦ negative
  | positive ↦ positive
  | null ↦
      if ltb v.size other.size then negative else if ltb other.size v.size then positive else null
]

-- `operator==`
unfoldable pub equals : View → View → Bool
unfolding compare
equals lhs rhs = if not (lhs.size == rhs.size) then false else is_null (compare lhs rhs)

-- `operator<`
unfoldable pub less : View → View → Bool
unfolding compare
less lhs rhs = elim (compare lhs rhs) [ negative ↦ true | null ↦ false | positive ↦ false ]

-- The loop of `find(s, pos, count)`
unfoldable pub find_loop : View → Chars → ℕ → ℕ → ℕ → ℕ
unfolding traits_find traits_compare
find_loop v s count zero pos = npos
find_loop v s count (suc fuel) pos =
    let found = traits_find v.chars pos (v.size - pos) (s 0) in
    if leb (add64 pos count) v.size
    then elim found [
      | none ↦ npos
      | some i ↦ elim (is_null (traits_compare v.chars i s 0 count)) [
        | true ↦ i
        | false ↦ find_loop v s count fuel (i + 1)
      ]
    ]
    else npos

-- `find(s, pos, count)`; `pos` grows with every round.
unfoldable pub find : View → Chars → ℕ → ℕ → ℕ
unfolding find_loop
find v s pos count =
    if ltb v.size pos
    then npos
    else if count == 0
    then pos
    else find_loop v s count (v.size - pos + 1) pos

-- `find(ch, pos)`
unfoldable pub find_char : View → ℕ → ℕ → ℕ
unfolding find
find_char v ch pos = find v (λ _. ch) pos 1

-- The loop of `rfind(s, pos, count)`, down from `pos`
unfoldable pub rfind_loop : View → Chars → ℕ → ℕ → ℕ
unfolding traits_compare
rfind_loop v s count zero = if is_null (traits_compare v.chars 0 s 0 count) then 0 else npos
rfind_loop v s count (suc pos) =
    let rest = rfind_loop v s count pos in
    if is_null (traits_compare v.chars (suc pos) s 0 count) then suc pos else rest

-- `rfind(s, pos, count)`
unfoldable pub rfind : View → Chars → ℕ → ℕ → ℕ
unfolding rfind_loop
rfind v s pos count =
    if leb count v.size then rfind_loop v s count (min (v.size - count) pos) else npos

-- The loop of `find_first_of`, over the characters of `s` from index `j` on
unfoldable pub first_of_loop : View → Chars → ℕ → ℕ → ℕ → ℕ → ℕ
unfolding find_char
first_of_loop v s pos j zero first_of = first_of
first_of_loop v s pos j (suc n) first_of =
    let found = find_char v (s j) pos in
    first_of_loop v s pos (j + 1) n
      (if found == npos then first_of else if ltb found first_of then found else first_of)

unfoldable pub find_first_of : View → Chars → ℕ → ℕ → ℕ
unfolding first_of_loop
find_first_of v s pos count = first_of_loop v s pos 0 count npos

-- Whether a character is none of the first `count` of `s`
unfoldable pub none_of : Chars → ℕ → ℕ → Bool
unfolding traits_find
none_of s count c = elim (traits_find s 0 count c) [ none ↦ true | some i ↦ false ]

-- The loop of `find_first_not_of`, over `n` characters from `pos` on
unfoldable pub not_of_loop : View → Chars → ℕ → ℕ → ℕ → ℕ
unfolding none_of
not_of_loop v s count pos zero = npos
not_of_loop v s count pos (suc n) =
    let rest = not_of_loop v s count (pos + 1) n in
    if none_of s count (v.chars pos) then pos else rest

unfoldable pub find_first_not_of : View → Chars → ℕ → ℕ → ℕ
unfolding not_of_loop
find_first_not_of v s pos count =
    if leb v.size pos then npos else not_of_loop v s count pos (v.size - pos)

-- The loop of `find_last_not_of`, down from `pos`
unfoldable pub last_not_of_loop : View → Chars → ℕ → ℕ → ℕ
unfolding none_of
last_not_of_loop v s count zero = if none_of s count (v.chars 0) then 0 else npos
last_not_of_loop v s count (suc pos) =
    let rest = last_not_of_loop v s count pos in
    if none_of s count (v.chars (suc pos)) then suc pos else rest

unfoldable pub find_last_not_of : View → Chars → ℕ → ℕ → ℕ
unfolding last_not_of_loop
find_last_not_of v s pos count =
    if v.size == 0 then npos else last_not_of_loop v s count (min pos (v.size - 1))
