-- ===== src/Page.antt =====
-- The pages of K-webserver/src/database_postgres_impl.rs: `get_all_users`, whose scheme the other
-- paginated queries repeat. What the SQL text selects and joins is the list of rows, in the order of
-- its ORDER BY; the two cursor conditions, the LIMIT and what is done with the rows are modelled.
-- `limit` is what `options.limit.unwrap_or(20)` gives. A cursor that does not parse adds no condition.
pub mod Bounds
pub mod Order
pub mod Walk
pub mod Tests
use k_indexer.Prelude.{
  ℕ, ℤ, pos, negsuc, ltb_ℤ, zero, suc, ◌+◌, ◌-◌, ◌^◌, Bool, true, false, not, ◌&&◌, ◌||◌, Option,
  none, some, List, [], ◌∷◌, ltb, leb, ◌==◌, if◌then◌else◌, length, take,
}
use k_indexer.Text.{Text, is_empty}
use k_indexer.Store.Rows.{where_rows}
use k_indexer.Cursor.{ParsedCursor, ok, err, parse_compound_cursor, create_compound_cursor, max_i64}

-- What the trait HasCompoundCursor gives, and the column as the database holds it.
pub record Row : Type 0 where
  pub block_time : ℤ
  pub id : ℤ

-- `as i64` and `as u64`.
unfoldable pub as_i64 : ℕ → ℤ
as_i64 n = if leb n max_i64 then pos n else negsuc (2 ^ 64 - 1 - n)

unfoldable pub as_u64 : ℤ → ℕ
as_u64 (pos n) = n
as_u64 (negsuc n) = 2 ^ 64 - 1 - n

unfoldable pub eq_ℤ : ℤ → ℤ → Bool
eq_ℤ a b = not (ltb_ℤ a b) && not (ltb_ℤ b a)

-- `block_time < $1 OR (block_time = $1 AND id < $2)`.
unfoldable pub is_before : ℤ → ℤ → Row → Bool
unfolding eq_ℤ
is_before time id r = ltb_ℤ r.block_time time || (eq_ℤ r.block_time time && ltb_ℤ r.id id)

unfoldable pub is_after : ℤ → ℤ → Row → Bool
unfolding eq_ℤ
is_after time id r = ltb_ℤ time r.block_time || (eq_ℤ r.block_time time && ltb_ℤ id r.id)

-- A condition is added where there is a cursor that parses.
unfoldable pub with_cursor : (ℤ → ℤ → Row → Bool) → Option Text → Row → Bool
unfolding as_i64
with_cursor condition none r = true
with_cursor condition (some cursor) r = elim (parse_compound_cursor cursor) [
  | ok time id ↦ condition (as_i64 time) id r
  | err e ↦ true
]

-- `Vec::pop`, for its effect.
unfoldable pub pop : List Row → List Row
pop [] = []
pop (r ∷ []) = []
pop (r ∷ s ∷ rs) = r ∷ pop (s ∷ rs)

unfoldable pub last : List Row → Option Row
last [] = none
last (r ∷ []) = some r
last (r ∷ s ∷ rs) = last (s ∷ rs)

unfoldable pub first : List Row → Option Row
first [] = none
first (r ∷ rs) = some r

unfoldable pub cursor_of : Option Row → Option Text
unfolding as_u64
cursor_of none = none
cursor_of (some r) = some (create_compound_cursor (as_u64 r.block_time) r.id)

pub record PaginationMetadata : Type 0 where
  pub has_more : Bool
  pub next_cursor : Option Text
  pub prev_cursor : Option Text

unfoldable pub create_compound_pagination_metadata : List Row → Bool → PaginationMetadata
unfolding last first cursor_of
create_compound_pagination_metadata items has_more = record {
  has_more = has_more;
  next_cursor = if has_more && not (is_empty items) then cursor_of (last items) else none;
  prev_cursor = if not (is_empty items) then cursor_of (first items) else none;
}

pub record PaginatedResult {ℓ} (A : Type ℓ) : Type ℓ where
  pub items : List A
  pub pagination : PaginationMetadata

-- The rows of the LIMIT, one more than the page holds.
unfoldable pub fetch_all : ℕ → Option Text → Option Text → List Row → List Row
unfolding with_cursor is_before is_after
fetch_all limit before after rows =
    take (suc limit)
      (where_rows (λ r. with_cursor is_before before r && with_cursor is_after after r) rows)

unfoldable pub get_page : ℕ → Option Text → Option Text → List Row → PaginatedResult Row
unfolding fetch_all pop create_compound_pagination_metadata
get_page limit before after rows =
    let fetched = fetch_all limit before after rows in
    let has_more = ltb limit (length fetched) in
    let items = if has_more then pop fetched else fetched in
    record { items = items; pagination = create_compound_pagination_metadata items has_more }

-- A client that follows `next_cursor` until there is none.
unfoldable pub walk : (fuel limit : ℕ) → Option Text → List Row → List (List Row)
unfolding get_page
walk zero limit cursor rows = []
walk (suc fuel) limit cursor rows =
    let p = get_page limit cursor none rows in
    p.items ∷ elim p.pagination.next_cursor [ none ↦ [] | some c ↦ walk fuel limit (some c) rows ]
