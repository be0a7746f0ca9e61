-- ===== src/Text/Utf8.antt =====
-- `std::str::from_utf8`: the well-formed byte sequences of Unicode, read into code points.
use k_indexer.Prelude.{
  ℕ, ◌+◌, ◌-◌, ◌*◌, ◌≡◌, refl, Bool, ◌&&◌, ◌||◌, Option, none, some, List, [], ◌∷◌, ltb, leb, ◌==◌,
  if◌then◌else◌,
}

abbrev between : ℕ → ℕ → ℕ → Bool
between lo hi b = leb lo b && leb b hi

-- A continuation byte.
abbrev is_tail : ℕ → Bool
is_tail b = between 0x80 0xBF b

abbrev cons_char : Bool → ℕ → Option (List ℕ) → Option (List ℕ)
cons_char b c none = none
cons_char b c (some s) = if b then some (c ∷ s) else none

-- The second byte of a sequence of three: no overlong form and no surrogate.
abbrev is_second_of_three : ℕ → ℕ → Bool
is_second_of_three a b =
    (a == 0xE0 && between 0xA0 0xBF b)
    || (between 0xE1 0xEC a && is_tail b)
    || (a == 0xED && between 0x80 0x9F b)
    || (between 0xEE 0xEF a && is_tail b)

-- The second byte of a sequence of four: no overlong form and nothing above U+10FFFF.
abbrev is_second_of_four : ℕ → ℕ → Bool
is_second_of_four a b =
    (a == 0xF0 && between 0x90 0xBF b)
    || (between 0xF1 0xF3 a && is_tail b)
    || (a == 0xF4 && between 0x80 0x8F b)

-- What the bytes behind the first byte `a` make, given the reading of what follows one, two, three
-- and four bytes.
unfoldable pub from_utf8 : List ℕ → Option (List ℕ)
from_utf8 [] = some []
from_utf8 (a ∷ []) = if ltb a 0x80 then some (a ∷ []) else none
from_utf8 (a ∷ b ∷ []) =
    let rest = from_utf8 (b ∷ []) in
    if ltb a 0x80
    then cons_char (ltb a 0x80) a rest
    else if between 0xC2 0xDF a && is_tail b
    then some (((a - 0xC0) * 64 + (b - 0x80)) ∷ [])
    else none
from_utf8 (a ∷ b ∷ c ∷ []) =
    let after_one = from_utf8 (b ∷ c ∷ []) in
    let after_two = from_utf8 (c ∷ []) in
    if ltb a 0x80
    then cons_char (ltb a 0x80) a after_one
    else if between 0xC2 0xDF a
    then cons_char (is_tail b) ((a - 0xC0) * 64 + (b - 0x80)) after_two
    else if is_second_of_three a b && is_tail c
    then some (((a - 0xE0) * 4096 + (b - 0x80) * 64 + (c - 0x80)) ∷ [])
    else none
from_utf8 (a ∷ b ∷ c ∷ d ∷ s) =
    let after_one = from_utf8 (b ∷ c ∷ d ∷ s) in
    let after_two = from_utf8 (c ∷ d ∷ s) in
    let after_three = from_utf8 (d ∷ s) in
    let after_four = from_utf8 s in
    if ltb a 0x80
    then cons_char (ltb a 0x80) a after_one
    else if between 0xC2 0xDF a
    then cons_char (is_tail b) ((a - 0xC0) * 64 + (b - 0x80)) after_two
    else if between 0xE0 0xEF a
    then cons_char (is_second_of_three a b && is_tail c)
        ((a - 0xE0) * 4096 + (b - 0x80) * 64 + (c - 0x80)) after_three
    else cons_char (is_second_of_four a b && is_tail c && is_tail d)
        ((a - 0xF0) * 262144 + (b - 0x80) * 4096 + (c - 0x80) * 64 + (d - 0x80)) after_four

from_utf8_euro :
    from_utf8 (0x61 ∷ 0xC3 ∷ 0xA9 ∷ 0xE2 ∷ 0x82 ∷ 0xAC ∷ 0xF0 ∷ 0x9F ∷ 0x98 ∷ 0x80 ∷ [])
    ≡ some (0x61 ∷ 0xE9 ∷ 0x20AC ∷ 0x1F600 ∷ [])
unfolding from_utf8
from_utf8_euro = refl
