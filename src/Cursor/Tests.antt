-- ===== src/Cursor/Tests.antt =====
-- Cursors at concrete values.
use k_indexer.Prelude.{negsuc, ◌≡◌, refl, arith}
use k_indexer.Text.{codes, contains}
use k_indexer.Text.Split.{split}
use k_indexer.Cursor.{
  digits, print_ℕ, print_ℤ, scan, is_digit, neg, parse_digits, parse_u64, parse_i64,
  create_compound_cursor, parse_compound_cursor, parse_parts, parse_simple, ok, err,
  invalid_timestamp, invalid_id, invalid_format,
}
use k_indexer.Cursor.RoundTrip.{parse-create}

create_sample : create_compound_cursor 1700000000000 (negsuc 41) ≡ codes "1700000000000_-42"
unfolding create_compound_cursor print_ℤ print_ℕ digits
create_sample = refl

-- More than one underscore, no digit, and a number out of range.
bad_cursors :
    (parse_compound_cursor (codes "1_2_3") ≡ err invalid_format)
    × (parse_compound_cursor (codes "1_") ≡ err invalid_id)
    × (parse_compound_cursor (codes "18446744073709551616_1") ≡ err invalid_timestamp)
unfolding parse_compound_cursor parse_parts parse_simple split contains parse_u64 parse_i64
    parse_digits scan is_digit neg
bad_cursors = (refl, refl, refl)

parse-create_example :
    parse_compound_cursor (create_compound_cursor 1700000000000 (negsuc 41))
    ≡ ok 1700000000000 (negsuc 41)
parse-create_example = parse-create 1700000000000 (negsuc 41) (omega arith) (omega arith)
