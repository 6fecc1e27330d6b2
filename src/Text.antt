-- ===== src/Text.antt =====
-- client_util.cpp, and the members of `std::string` that the program calls. `npos` is `none`.
pub mod Find
pub mod Trim
use csfassignment.Base.{
  ℕ, suc, Bool, true, false, ◌&&◌, ◌||◌, [], ◌∷◌, Option, none, some, Bytes, length, take, drop,
  ltb, leb, ◌==◌, if◌then◌else◌,
}

-- `s == t` on `std::string`.
unfoldable pub str_eq : Bytes → Bytes → Bool
str_eq [] [] = true
str_eq [] (d ∷ t) = false
str_eq (c ∷ s) [] = false
str_eq (c ∷ s) (d ∷ t) = (c == d) && str_eq s t

-- `s.find(c)` for one character.
unfoldable pub find : ℕ → Bytes → Option ℕ
find c [] = none
find c (d ∷ s) = if c == d then some 0 else elim (find c s) [ none ↦ none | some i ↦ some (suc i) ]

-- `s.substr(pos)`, which throws `std::out_of_range` (`none`) if `pos > s.size()`.
unfoldable pub substr? : Bytes → ℕ → Option Bytes
substr? s pos = if ltb (length s) pos then none else some (drop pos s)

-- `s.substr(pos, n)`, which throws likewise.
unfoldable pub substr_len? : Bytes → ℕ → ℕ → Option Bytes
substr_len? s pos n = if ltb (length s) pos then none else some (take n (drop pos s))

unfoldable pub contains : ℕ → Bytes → Bool
contains c [] = false
contains c (d ∷ s) = (c == d) || contains c s

-- `" \n\r\t\f\v"`
abbrev pub whitespace : Bytes
whitespace = b' ' ∷ 10 ∷ 13 ∷ 9 ∷ 12 ∷ 11 ∷ []

unfoldable pub find_first_not_of : Bytes → Bytes → Option ℕ
find_first_not_of set [] = none
find_first_not_of set (c ∷ s) =
    if contains c set
    then elim (find_first_not_of set s) [ none ↦ none | some i ↦ some (suc i) ]
    else some 0

unfoldable pub find_last_not_of : Bytes → Bytes → Option ℕ
find_last_not_of set [] = none
find_last_not_of set (c ∷ s) = elim (find_last_not_of set s) [
  | some i ↦ some (suc i)
  | none ↦ if contains c set then none else some 0
]

-- In `ltrim` and `rtrim` the position is in range, so `substr` does not throw.
unfoldable pub ltrim : Bytes → Bytes
unfolding find_first_not_of
ltrim s = elim (find_first_not_of whitespace s) [ none ↦ [] | some start ↦ drop start s ]

unfoldable pub rtrim : Bytes → Bytes
unfolding find_last_not_of
rtrim s = elim (find_last_not_of whitespace s) [ none ↦ [] | some end ↦ take (suc end) s ]

unfoldable pub trim : Bytes → Bytes
unfolding ltrim rtrim
trim s = rtrim (ltrim s)

unfoldable pub is_lower_cased : Bytes → Bool
is_lower_cased [] = true
is_lower_cased (c ∷ s) = if leb b'a' c && leb c b'z' then is_lower_cased s else false

unfoldable pub has_colon : Bytes → Bool
unfolding find
has_colon s = elim (find b':' s) [ none ↦ false | some i ↦ true ]
