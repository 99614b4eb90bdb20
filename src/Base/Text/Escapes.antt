-- ===== src/Base/Text/Escapes.antt =====
-- base/string.cc: `url_encode` against the encoding that its comment and its space describe.
use sails.Prelude.{
  ℕ, ◌+◌, ◌/◌, ◌%◌, ◌<◌, Bool, ◌&&◌, ◌||◌, Option, none, some, List, [], ◌∷◌, ◌++◌, leb, ◌==◌,
  if◌then◌else◌, length, take, drop,
}

-- Letters, digits, `-`, `_`, `.` and `~`.
abbrev pub is_unreserved : ℕ → Bool
is_unreserved c =
    (leb 97 c && leb c 122)
    || (leb 65 c && leb c 90)
    || (leb 48 c && leb c 57)
    || (c == 45)
    || (c == 95)
    || (c == 46)
    || (c == 126)

-- "0123456789ABCDEF"
abbrev pub hex_digits : List ℕ
hex_digits = 48 ∷ 49 ∷ 50 ∷ 51 ∷ 52 ∷ 53 ∷ 54 ∷ 55 ∷ 56 ∷ 57 ∷ 65 ∷ 66 ∷ 67 ∷ 68 ∷ 69 ∷ 70 ∷ []

abbrev pub digit : ℕ → List ℕ
digit n = take 1 (drop n hex_digits)

-- A byte of the encoding: a plus for a space, an unreserved byte, or a percent sign and two digits.
abbrev pub percent_byte : ℕ → List ℕ
percent_byte c =
    if c == 32
    then 43 ∷ []
    else if is_unreserved c
    then c ∷ []
    else 37 ∷ digit (c / 16) ++ digit (c % 16)

unfoldable pub percent : List ℕ → List ℕ
percent [] = []
percent (c ∷ cs) = percent_byte c ++ percent cs

-- What `url_encode` gives: NULL, where not even four bytes more than the encoding fit, or the
-- encoding, which fits with its terminator.
pub data Encoded (len : ℕ) (s : List ℕ) : Option (Option (List ℕ)) → Type 0 where
  gives_up : len < 4 + length (percent s) → Encoded len s (some none)
  gives : length (percent s) < len → Encoded len s (some (some (percent s)))
