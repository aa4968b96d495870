-- ===== src/Texts.antt =====
-- The text functions of src/string_utils.cpp that split and join texts and that encode them for a
-- URL. A text is the list of its bytes, as std::string has them; the tests of characters are those
-- of the "C" locale.
pub mod Splitting
pub mod Escapes
mod Examples
use rclabs_api.Prelude.{
  ℕ, zero, suc, ◌+◌, ◌-◌, ◌*◌, ◌/◌, ◌%◌, ◌==◌, Bool, true, false, not, ◌&&◌, ◌||◌, ltb, leb, Option,
  none, some, List, [], ◌∷◌, ◌++◌, if◌then◌else◌,
}

abbrev first_to : ℕ → List (List ℕ) → List (List ℕ)
first_to c [] = (c ∷ []) ∷ []
first_to c (part ∷ parts) = (c ∷ part) ∷ parts

-- The parts between the delimiters, from where the search starts.
unfoldable pub parts_of : List ℕ → ℕ → List (List ℕ)
parts_of [] delimiter = [] ∷ []
parts_of (c ∷ s) delimiter =
    let rest = parts_of s delimiter in if c == delimiter then [] ∷ rest else first_to c rest

unfoldable pub split : List ℕ → ℕ → List (List ℕ)
unfolding parts_of
split [] delimiter = []
split (c ∷ s) delimiter = parts_of (c ∷ s) delimiter

unfoldable pub limited_parts : List ℕ → ℕ → ℕ → List (List ℕ)
limited_parts [] delimiter max_parts = [] ∷ []
limited_parts (c ∷ s) delimiter max_parts =
    let rest = limited_parts s delimiter max_parts in
    let next = limited_parts s delimiter (max_parts - 1) in
    if ltb 1 max_parts && c == delimiter then [] ∷ next else first_to c rest

-- At most so many parts, of which the last is the rest of the text.
unfoldable pub split_at_most : List ℕ → ℕ → ℕ → List (List ℕ)
unfolding limited_parts
split_at_most [] delimiter max_parts = []
split_at_most (c ∷ s) delimiter zero = []
split_at_most (c ∷ s) delimiter (suc n) = limited_parts (c ∷ s) delimiter (suc n)

join_rest : List (List ℕ) → List ℕ → List ℕ
join_rest [] separator = []
join_rest (part ∷ parts) separator = separator ++ (part ++ join_rest parts separator)

unfoldable pub join : List (List ℕ) → List ℕ → List ℕ
unfolding join_rest
join [] separator = []
join (part ∷ parts) separator = part ++ join_rest parts separator

abbrev pub between : ℕ → ℕ → ℕ → Bool
between low high c = leb low c && leb c high

-- Letters, digits and `-`, `_`, `.` and `~`.
unfoldable pub is_safe : ℕ → Bool
is_safe c =
    between 48 57 c
    || between 65 90 c
    || between 97 122 c
    || c == 45
    || c == 95
    || c == 46
    || c == 126

-- An upper-case hexadecimal digit.
unfoldable pub hex_digit : ℕ → ℕ
hex_digit d = if ltb d 10 then 48 + d else 55 + d

unfoldable pub url_encode : List ℕ → List ℕ
unfolding is_safe hex_digit
url_encode [] = []
url_encode (c ∷ s) =
    let rest = url_encode s in
    if is_safe c then c ∷ rest else 37 ∷ hex_digit (c / 16) ∷ hex_digit (c % 16) ∷ rest

unfoldable pub hex_value : ℕ → Option ℕ
hex_value c =
    if between 48 57 c
    then some (c - 48)
    else if between 65 70 c
    then some (c - 55)
    else if between 97 102 c
    then some (c - 87)
    else none

abbrev is_space : ℕ → Bool
is_space c = c == 32 || between 9 13 c

abbrev negated : Option ℕ → Option ℕ
negated none = none
negated (some v) = some ((256 - v) % 256)

abbrev two_digits : Option ℕ → Option ℕ → Option ℕ
two_digits (some high) (some low) = some (16 * high + low)
two_digits _ _ = none

-- `strtol` of two characters to base 16, if it reads both, as a `char`: it passes over a space and
-- takes a sign.
unfoldable pub two_characters : ℕ → ℕ → Option ℕ
unfolding hex_value
two_characters a b =
    if is_space a || a == 43
    then hex_value b
    else if a == 45
    then negated (hex_value b)
    else two_digits (hex_value a) (hex_value b)

abbrev plain : ℕ → ℕ
plain c = if c == 43 then 32 else c

abbrev escaped : Option ℕ → List ℕ → List ℕ → List ℕ
escaped none skipped kept = 37 ∷ kept
escaped (some v) skipped kept = v ∷ skipped

unfoldable pub url_decode : List ℕ → List ℕ
unfolding two_characters
url_decode [] = []
url_decode (c ∷ []) = plain c ∷ []
url_decode (c ∷ a ∷ []) = plain c ∷ url_decode (a ∷ [])
url_decode (c ∷ a ∷ b ∷ s) =
    let skipped = url_decode s in
    let kept = url_decode (a ∷ b ∷ s) in
    if c == 37 then escaped (two_characters a b) skipped kept else plain c ∷ kept
