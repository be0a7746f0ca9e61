-- ===== src/Cursor.antt =====
-- The cursors of K-webserver/src/database_postgres_impl.rs: a block time and a row id in one text. The
-- numbers are printed and parsed as `Display` and `str::parse` do for `u64` and `i64`.
pub mod RoundTrip
pub mod Tests
use k_indexer.Prelude.{
  ℕ, ℤ, pos, negsuc, zero, suc, ◌+◌, ◌-◌, ◌*◌, ◌/◌, ◌%◌, ◌^◌, Bool, true, false, ◌&&◌, Option, none,
  some, List, [], ◌∷◌, ◌++◌, ltb, leb, ◌==◌, if◌then◌else◌, length, get_or,
}
use k_indexer.Text.{Text, codes, contains}
use k_indexer.Text.Split.{split}
use k_indexer.Save.{◌>>=◌}

-- The digits of a number before `out`; each round divides by ten, and `n + 1` rounds are enough.
unfoldable pub digits : (fuel n : ℕ) → Text → Text
digits zero n out = out
digits (suc fuel) n out =
    let more = digits fuel (n / 10) ((b'0' + n % 10) ∷ out) in
    if ltb n 10 then (b'0' + n) ∷ out else more

unfoldable pub print_ℕ : ℕ → Text
unfolding digits
print_ℕ n = digits (suc n) n []

unfoldable pub print_ℤ : ℤ → Text
unfolding print_ℕ
print_ℤ (pos n) = print_ℕ n
print_ℤ (negsuc n) = b'-' ∷ print_ℕ (suc n)

unfoldable pub is_digit : ℕ → Bool
is_digit c = leb b'0' c && leb c b'9'

-- The value of a digit sequence behind `v`, at most `max`.
unfoldable pub scan : (max : ℕ) → Text → ℕ → Option ℕ
unfolding is_digit
scan max [] v = some v
scan max (c ∷ s) v =
    let next = v * 10 + (c - b'0') in
    let rest = scan max s next in if is_digit c && leb next max then rest else none

-- There must be a digit.
unfoldable pub parse_digits : (max : ℕ) → Text → Option ℕ
unfolding scan
parse_digits max [] = none
parse_digits max (c ∷ s) = scan max (c ∷ s) 0

abbrev pub max_u64 : ℕ
max_u64 = 2 ^ 64 - 1

abbrev pub max_i64 : ℕ
max_i64 = 2 ^ 63 - 1

-- A plus sign is allowed.
unfoldable pub parse_u64 : Text → Option ℕ
unfolding parse_digits
parse_u64 [] = none
parse_u64 (c ∷ s) = if c == b'+' then parse_digits max_u64 s else parse_digits max_u64 (c ∷ s)

unfoldable pub neg : ℕ → ℤ
neg zero = pos zero
neg (suc n) = negsuc n

unfoldable pub parse_i64 : Text → Option ℤ
unfolding parse_digits neg
parse_i64 [] = none
parse_i64 (c ∷ s) =
    if c == b'-'
    then (parse_digits (max_i64 + 1) s >>= λ n. some (neg n))
    else if c == b'+'
    then (parse_digits max_i64 s >>= λ n. some (pos n))
    else parse_digits max_i64 (c ∷ s) >>= λ n. some (pos n)

unfoldable pub create_compound_cursor : ℕ → ℤ → Text
unfolding print_ℕ print_ℤ
create_compound_cursor timestamp id = print_ℕ timestamp ++ b'_' ∷ print_ℤ id

-- What the `InvalidInput` messages say.
pub data CursorError : Type 0 where
  invalid_timestamp invalid_id invalid_format : CursorError

pub data ParsedCursor : Type 0 where
  ok : ℕ → ℤ → ParsedCursor
  err : CursorError → ParsedCursor

-- Two parts.
unfoldable pub parse_parts : Text → Text → ParsedCursor
unfolding parse_u64 parse_i64
parse_parts first second = elim (parse_u64 first) [
  | none ↦ err invalid_timestamp
  | some timestamp ↦ elim (parse_i64 second) [ none ↦ err invalid_id | some id ↦ ok timestamp id ]
]

-- A timestamp alone stands for all rows of that time.
unfoldable pub parse_simple : Text → ParsedCursor
unfolding parse_u64
parse_simple cursor = elim (parse_u64 cursor) [
  | none ↦ err invalid_format
  | some timestamp ↦ ok timestamp (pos max_i64)
]

unfoldable pub parse_compound_cursor : Text → ParsedCursor
unfolding parse_parts parse_simple
parse_compound_cursor cursor =
    let parts = split b'_' cursor in
    if contains cursor b'_' && length parts == 2
    then parse_parts (get_or parts 0 []) (get_or parts 1 [])
    else parse_simple cursor
