-- ===== src/Migrate/Version.antt =====
-- versionOf of migrate.go: the number before the first underscore of a name.
use voxellink_monitor.Common.{
  ℕ, zero, suc, ◌+◌, ◌-◌, ◌*◌, ◌^◌, String, Bool, ◌&&◌, Option, none, some, ltb, leb, ◌==◌,
  if◌then◌else◌, is_empty,
}
use Prim.Native.Char.{code}

-- strings.Cut(name, "_"), as far as what is before
unfoldable pub cut_before : ℕ → String → Option String
cut_before sep String.[] = none
cut_before sep (String.◌∷◌ c s) = elim (cut_before sep s) [
  | none ↦ if code c == sep then some "" else none
  | some before ↦ if code c == sep then some "" else some (String.◌∷◌ c before)
]

abbrev is_digit : ℕ → Bool
is_digit c = leb b'0' c && leb c b'9'

-- The digits of a text, after those that `n` stands for.
digits_from : ℕ → String → Option ℕ
digits_from n String.[] = some n
digits_from n (String.◌∷◌ c s) =
    let rest = digits_from (n * 10 + (code c - b'0')) s in if is_digit (code c) then rest else none

abbrev in_range : ℕ → Option ℕ
in_range n = if ltb n (2 ^ 63) then some n else none

abbrev unsigned : String → Option ℕ
unsigned s =
    if is_empty s then none else elim (digits_from 0 s) [ none ↦ none | some n ↦ in_range n ]

-- strconv.Atoi, for the numbers that are not negative: the others do not pass the test that follows.
unfoldable pub atoi : String → Option ℕ
unfolding digits_from
atoi String.[] = none
atoi (String.◌∷◌ c s) = if code c == b'+' then unsigned s else unsigned (String.◌∷◌ c s)

abbrev at_least_one : Option ℕ → Option ℕ
at_least_one none = none
at_least_one (some zero) = none
at_least_one (some (suc n)) = some (suc n)

unfoldable pub version_of : String → Option ℕ
unfolding cut_before atoi
version_of name = elim (cut_before b'_' name) [
  | none ↦ none
  | some value ↦ at_least_one (atoi value)
]
