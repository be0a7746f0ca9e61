-- ===== src/Hashtags.antt =====
-- K-transaction-processor/src/hashtag_extractor.rs: the first pass, which makes the result. The
-- second pass only logs warnings. `base64` and the Unicode tables of `regex` and `to_lowercase`
-- are parameters; a match is given by its positions, counted in code points.
pub mod Sound
pub mod Tests
use k_indexer.Prelude.{
  ℕ, zero, suc, ◌+◌, ◌-◌, ◌≤◌, ◌<◌, ◌≡◌, Bool, true, false, ◌&&◌, ◌||◌, Option, none, some, List,
  [], ◌∷◌, ltb, leb, ◌==◌, if◌then◌else◌, length, get_elem?, take, drop, All,
}
use k_indexer.Text.{Text, codes, text_eq, contains}
use k_indexer.Text.Utf8.{from_utf8}
use k_indexer.Store.Rows.{any}

-- `c.is_whitespace()`: the property White_Space.
unfoldable pub is_whitespace : ℕ → Bool
is_whitespace c =
    (leb 0x9 c && leb c 0xD)
    || c == 0x20
    || c == 0x85
    || c == 0xA0
    || c == 0x1680
    || (leb 0x2000 c && leb c 0x200A)
    || c == 0x2028
    || c == 0x2029
    || c == 0x202F
    || c == 0x205F
    || c == 0x3000

pub record Match : Type 0 where
  pub start : ℕ
  pub end_pos : ℕ

pub record TextLibs : Type 0 where
  -- `general_purpose::STANDARD.decode`.
  pub base64_decode : Text → Option (List ℕ)
  -- The classes `\p{L}` and `\p{N}` of a pattern.
  pub is_letter : ℕ → Bool
  pub is_number : ℕ → Bool
  -- `str::to_lowercase`.
  pub to_lowercase : Text → Text

-- `#[\p{L}\p{N}_]{1,30}`: the class, how many of its characters a text begins with, up to a bound, and
-- the matches. A match is as long as can be, and the next is sought behind it; `skip` counts the
-- characters of a match that are still to be passed.
module _ (libs : TextLibs) where
  unfoldable pub is_tag_char : ℕ → Bool
  is_tag_char c = libs.is_letter c || libs.is_number c || c == b'_'

  unfoldable pub run_length : ℕ → Text → ℕ
  unfolding is_tag_char
  run_length zero s = 0
  run_length (suc bound) [] = 0
  run_length (suc bound) (c ∷ s) =
      let rest = run_length bound s in if is_tag_char c then suc rest else 0

  unfoldable pub matches_from : (skip pos : ℕ) → Text → List Match
  unfolding run_length
  matches_from skip pos [] = []
  matches_from (suc skip) pos (c ∷ s) = matches_from skip (suc pos) s
  matches_from zero pos (c ∷ s) =
      let n = if c == b'#' then run_length 30 s else 0 in
      let rest = matches_from n (suc pos) s in
      if leb 1 n then record { start = pos; end_pos = suc pos + n } ∷ rest else rest

  unfoldable pub find_iter : Text → List Match
  unfolding matches_from
  find_iter text = matches_from 0 0 text

-- The character before `#` must be white space, if there is one.
unfoldable pub valid_before : Text → Match → Bool
valid_before text m =
    if m.start == 0
    then true
    else elim (get_elem? text (m.start - 1)) [ some c ↦ is_whitespace c | none ↦ false ]

-- The character behind the tag must be white space or one of five marks, if there is one.
unfoldable pub valid_after : Text → Match → Bool
valid_after text m = if leb (length text) m.end_pos then true else elim (get_elem? text m.end_pos) [
  | some c ↦ is_whitespace c || contains (codes ".,;!?") c
  | none ↦ false
]

-- `&mat.as_str()[1..]`.
unfoldable pub tag_of : Text → Match → Text
tag_of text m = take (m.end_pos - m.start - 1) (drop (m.start + 1) text)

-- `HashSet::insert`; the order of the set's items is unspecified.
unfoldable pub insert : Text → List Text → List Text
insert t ts = if any (text_eq t) ts then ts else t ∷ ts

module _ (libs : TextLibs) where
  -- The loop over the matches.
  unfoldable pub collect : Text → List Match → List Text → List Text
  unfolding insert
  collect text [] found = found
  collect text (m ∷ ms) found = collect text ms (
      if valid_before text m && valid_after text m
      then insert (libs.to_lowercase (tag_of text m)) found
      else found)

  unfoldable pub extract_hashtags : Text → List Text
  extract_hashtags text = collect text (find_iter libs text) []

  extract_from_bytes : Option (List ℕ) → List Text
  extract_from_bytes none = []
  extract_from_bytes (some bytes) = elim (from_utf8 bytes) [
    | none ↦ []
    | some text ↦ extract_hashtags text
  ]

  unfoldable pub extract_hashtags_from_base64 : Text → List Text
  unfolding extract_from_bytes
  extract_hashtags_from_base64 message = extract_from_bytes (libs.base64_decode message)
