-- ===== src/Page/Bounds.antt =====
-- The size of a page.
use k_indexer.Prelude.{
  ℕ, suc, ◌-◌, ◌≤◌, ◌≡◌, ◌⊎◌, refl, false, ◌&&◌, Option, List, [], ◌∷◌, length, length-take, arith,
}
use k_indexer.Text.{Text}
use k_indexer.Store.Rows.{where_rows}
use k_indexer.Page.{
  Row, pop, fetch_all, get_page, create_compound_pagination_metadata, with_cursor, is_before,
  is_after,
}

length-pop : (rows : List Row) → length (pop rows) ≡ length rows - 1
unfolding pop
length-pop [] = refl
length-pop (r ∷ []) = refl
length-pop (r ∷ s ∷ rows) = omega (arith, length-pop (s ∷ rows))

length-fetch_all :
    (limit : ℕ) (before after : Option Text) (rows : List Row)
    → length (fetch_all limit before after rows) ≤ suc limit
unfolding fetch_all
length-fetch_all limit before after rows = omega (
  arith,
  length-take (suc limit)
      (where_rows (λ r. with_cursor is_before before r && with_cursor is_after after r) rows),
)

-- Whatever the cursors, a page has `limit` rows at most, and exactly that many when it says that there are
-- more.
pub length-get_page :
    (limit : ℕ) (before after : Option Text) (rows : List Row)
    → (length (get_page limit before after rows).items ≤ limit)
      × (((get_page limit before after rows).pagination.has_more ≡ false)
          ⊎ (length (get_page limit before after rows).items ≡ limit))
unfolding get_page create_compound_pagination_metadata
length-get_page limit before after rows =
    let fetched = fetch_all limit before after rows in
    ground (arith, length-pop fetched, length-fetch_all limit before after rows)
