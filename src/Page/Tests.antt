-- ===== src/Page/Tests.antt =====
-- A walk over three rows, two of one time, with pages of two.
use k_indexer.Prelude.{pos, ◌+◌, ◌≤◌, ◌≡◌, ◌⊎◌, refl, none, false, List, [], ◌∷◌, length, arith}
use k_indexer.Page.{Row, is_before, eq_ℤ, get_page, walk}
use k_indexer.Page.Walk.{concat, walk_complete}
use k_indexer.Page.Bounds.{length-get_page}

abbrev three_rows : List Row
three_rows =
    record { block_time = pos 20; id = pos 7 }
    ∷ record { block_time = pos 20; id = pos 5 }
    ∷ record { block_time = pos 10; id = pos 6 }
    ∷ []

walk_complete_example :
    (concat (walk (length three_rows + 1) 2 none three_rows) ≡ three_rows)
    × (walk (length three_rows + 1 + 5) 2 none three_rows
        ≡ walk (length three_rows + 1) 2 none three_rows)
unfolding is_before eq_ℤ
walk_complete_example =
    walk_complete 1 5 three_rows ((refl, (refl, tt)), ((refl, tt), (tt, tt)))
      (
        (20, refl, omega arith, omega arith),
        ((20, refl, omega arith, omega arith), ((10, refl, omega arith, omega arith), tt)),
      )

length-get_page_example :
    (length (get_page 2 none none three_rows).items ≤ 2)
    × (((get_page 2 none none three_rows).pagination.has_more ≡ false)
        ⊎ (length (get_page 2 none none three_rows).items ≡ 2))
length-get_page_example = length-get_page 2 none none three_rows
