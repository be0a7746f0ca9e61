-- ===== src/Page/Walk.antt =====
-- A client that follows the cursors sees every row once, in order.
use k_indexer.Prelude.{
  ℕ, pos, zero, suc, ◌+◌, ◌<◌, ◌≤◌, ◌≡◌, refl, lt→ltb, ltb→lt, Bool-cases, inl, inr, sym, ap, ◌∙◌,
  Bool, true, false, ◌&&◌, Option, none, some, List, [], ◌∷◌, ◌++◌, ltb, length, take, drop,
  get_elem?, length-take, length-drop, take-append-drop, All, arith,
}
use mathlib.Core.List.{append-nil}
use k_indexer.Text.{Text, is_empty}
use k_indexer.Store.Rows.{where_rows, where_rows_full}
use k_indexer.Cursor.{ok, parse_compound_cursor, create_compound_cursor, max_i64}
use k_indexer.Cursor.RoundTrip.{parse-create}
use k_indexer.Page.{
  Row, as_i64, as_u64, is_before, is_after, with_cursor, last, cursor_of, fetch_all, get_page,
  create_compound_pagination_metadata, walk,
}
use k_indexer.Page.Order.{
  IsDescending, IsRow, All-get_elem?, where_rows-before, pop-take, last-take, get_elem?-drop,
  drop-drop,
}

as_i64-small : (n : ℕ) → n ≤ max_i64 → as_i64 n ≡ pos n
unfolding as_i64
as_i64-small n h = ground arith

cursor_of-create :
    (r : Row) (n : ℕ)
    → r.block_time ≡ pos n
    → cursor_of (some r) ≡ some (create_compound_cursor n r.id)
unfolding cursor_of as_u64
cursor_of-create r n e = rw e refl

some_injective : {A : Type 0} {x y : A} → some x ≡ some y → x ≡ y
some_injective e = cc

-- The condition of a cursor that a page returned is that of its row.
with_cursor-of :
    (r : Row) (c : Text)
    → IsRow r
    → cursor_of (some r) ≡ some c
    → (s : Row) → with_cursor is_before (some c) s ≡ is_before r.block_time r.id s
unfolding with_cursor
with_cursor-of r c (n, time, h, hid) e s =
    let made : create_compound_cursor n r.id ≡ c =
      some_injective (sym (cursor_of-create r n time) ∙ e) in
    let parsed : parse_compound_cursor c ≡ ok n r.id =
      ap parse_compound_cursor (sym made) ∙ parse-create n r.id (omega arith) hid in
    let row_time : as_i64 n ≡ r.block_time = as_i64-small n h ∙ sym time in
    rw (with_cursor, parsed, row_time) refl

-- The rows of a cursor are those from position k on.
IsAt : Option Text → ℕ → List Row → Type 0
IsAt cursor k rows =
    where_rows (λ r. with_cursor is_before cursor r && with_cursor is_after none r) rows
    ≡ drop k rows

is_empty-false : {A : Type 0} (xs : List A) → 0 < length xs → is_empty xs ≡ false
is_empty-false [] h = absurd (omega arith)
is_empty-false (x ∷ xs) h = refl

abbrev pub concat : List (List Row) → List Row
concat [] = []
concat (p ∷ ps) = p ++ concat ps

take_all : {A : Type 0} (n : ℕ) (xs : List A) → length xs ≤ n → take n xs ≡ xs
take_all zero [] h = refl
take_all zero (x ∷ xs) h = absurd (omega arith)
take_all (suc n) [] h = refl
take_all (suc n) (x ∷ xs) h = ap (λ l. x ∷ l) (take_all n xs (omega arith))

fetch_all-take :
    (limit : ℕ) (cursor : Option Text) (k : ℕ) (rows : List Row)
    → IsAt cursor k rows
    → fetch_all limit cursor none rows ≡ take (suc limit) (drop k rows)
unfolding fetch_all IsAt
fetch_all-take limit cursor k rows at = ap (take (suc limit)) at

-- The last page.
get_page-last :
    (limit : ℕ) (cursor : Option Text) (k : ℕ) (rows : List Row)
    → IsAt cursor k rows
    → length (drop k rows) ≤ limit
    → ((get_page limit cursor none rows).items ≡ drop k rows)
      × ((get_page limit cursor none rows).pagination.next_cursor ≡ none)
unfolding get_page create_compound_pagination_metadata
get_page-last limit cursor k rows at h =
    let e : fetch_all limit cursor none rows ≡ drop k rows =
      fetch_all-take limit cursor k rows at ∙ take_all (suc limit) (drop k rows) (omega arith) in
    let f : ltb limit (length (drop k rows)) ≡ false = ground arith in rw (e, f) (refl, refl)

-- A page with another behind it.
get_page-full :
    (limit : ℕ) (cursor : Option Text) (k : ℕ) (rows : List Row)
    → IsAt cursor k rows
    → 0 < limit
    → limit < length (drop k rows)
    → ((get_page limit cursor none rows).items ≡ take limit (drop k rows))
      × ((get_page limit cursor none rows).pagination.next_cursor
          ≡ cursor_of (last (take limit (drop k rows))))
unfolding get_page create_compound_pagination_metadata
get_page-full limit cursor k rows at h0 h =
    let d = drop k rows in
    let e : fetch_all limit cursor none rows ≡ take (suc limit) d =
      fetch_all-take limit cursor k rows at in
    let f : ltb limit (length (take (suc limit) d)) ≡ true =
      lt→ltb _ _ (omega (arith, length-take (suc limit) d)) in
    let some_item : is_empty (take limit d) ≡ false =
      is_empty-false (take limit d) (omega (arith, length-take limit d)) in
    rw (e, f, pop-take limit d h, some_item) (refl, refl)

and_none : (b : Bool) (s : Row) → (b && with_cursor is_after none s) ≡ b
unfolding with_cursor
and_none true s = refl
and_none false s = refl

All-true : (rows : List Row) → All (λ _. true ≡ true) rows
All-true [] = tt
All-true (r ∷ rows) = (refl, All-true rows)

-- The cursor of a full page stands for the rows behind it.
next_cursor-IsAt :
    (l k : ℕ) (rows : List Row)
    → IsDescending rows
    → All IsRow rows
    → suc l < length (drop k rows)
    → (c : Text) × (cursor_of (last (take (suc l) (drop k rows))) ≡ some c)
      × IsAt (some c) (k + suc l) rows
unfolding IsAt
next_cursor-IsAt l k rows hd hr h =
    let found = last-take l (drop k rows) (omega arith) in
    let r = found.0 in
    let at : get_elem? rows (k + l) ≡ some r = sym (get_elem?-drop k l rows) ∙ found.2 in
    let row = All-get_elem? IsRow rows (k + l) r hr at in
    let c = create_compound_cursor row.0 r.id in
    let made : cursor_of (some r) ≡ some c = cursor_of-create r row.0 row.1 in
    let same : (s : Row)
        → (with_cursor is_before (some c) s && with_cursor is_after none s)
          ≡ is_before r.block_time r.id s =
      λ s. and_none (with_cursor is_before (some c) s) s ∙ with_cursor-of r c row made s in
    let e : suc (k + l) ≡ k + suc l = omega arith in
    (
      c,
      ap cursor_of found.1 ∙ made,
      ap (λ p. where_rows p rows) (λ i s. same s i)
          ∙ where_rows-before rows (k + l) r hd at
          ∙ ap (λ n. drop n rows) e,
    )

walk-last :
    (fuel limit : ℕ) (cursor : Option Text) (rows : List Row)
    → (get_page limit cursor none rows).pagination.next_cursor ≡ none
    → walk (suc fuel) limit cursor rows ≡ (get_page limit cursor none rows).items ∷ []
unfolding walk
walk-last fuel limit cursor rows e = rw (walk, e) refl

walk-next :
    (fuel limit : ℕ) (cursor : Option Text) (rows : List Row) (c : Text)
    → (get_page limit cursor none rows).pagination.next_cursor ≡ some c
    → walk (suc fuel) limit cursor rows
      ≡ (get_page limit cursor none rows).items ∷ walk fuel limit (some c) rows
unfolding walk
walk-next fuel limit cursor rows c e = rw (walk, e) refl

walk-rows :
    (fuel l : ℕ) (cursor : Option Text) (k : ℕ) (rows : List Row)
    → IsDescending rows
    → All IsRow rows
    → IsAt cursor k rows
    → length (drop k rows) < fuel
    → concat (walk fuel (suc l) cursor rows) ≡ drop k rows
walk-rows zero l cursor k rows hd hr at h = absurd (omega arith)
walk-rows (suc fuel) l cursor k rows hd hr at h =
    elim (Bool-cases (ltb (suc l) (length (drop k rows)))) [
      | inl e ↦
          let more : suc l < length (drop k rows) = ltb→lt (suc l) (length (drop k rows)) e in
          let page = get_page-full (suc l) cursor k rows at (omega arith) more in
          let next = next_cursor-IsAt l k rows hd hr more in
          let rest : concat (walk fuel (suc l) (some next.0) rows) ≡ drop (k + suc l) rows =
            walk-rows fuel l (some next.0) (k + suc l) rows hd hr next.2
              (omega (arith, length-drop (k + suc l) rows, length-drop k rows)) in
          ap concat (walk-next fuel (suc l) cursor rows next.0 (page.1 ∙ next.1))
          ∙ ap (λ x. x ++ concat (walk fuel (suc l) (some next.0) rows)) page.0
          ∙ ap (λ x. take (suc l) (drop k rows) ++ x) (rest ∙ sym (drop-drop (suc l) k rows))
          ∙ take-append-drop (suc l) (drop k rows)
      | inr e ↦
          let page = get_page-last (suc l) cursor k rows at (ground arith) in
          ap concat (walk-last fuel (suc l) cursor rows page.1) ∙ append-nil _ ∙ page.0
    ]

-- Any fuel that is more than the rows that are left gives the same pages.
walk-enough :
    (fuel other l : ℕ) (cursor : Option Text) (k : ℕ) (rows : List Row)
    → IsDescending rows
    → All IsRow rows
    → IsAt cursor k rows
    → length (drop k rows) < fuel
    → length (drop k rows) < other
    → walk other (suc l) cursor rows ≡ walk fuel (suc l) cursor rows
walk-enough zero other l cursor k rows hd hr at h g = absurd (omega arith)
walk-enough (suc fuel) zero l cursor k rows hd hr at h g = absurd (omega arith)
walk-enough (suc fuel) (suc other) l cursor k rows hd hr at h g =
    elim (Bool-cases (ltb (suc l) (length (drop k rows)))) [
      | inl e ↦
          let full : suc l < length (drop k rows) = ltb→lt (suc l) (length (drop k rows)) e in
          let page = get_page-full (suc l) cursor k rows at (omega arith) full in
          let next = next_cursor-IsAt l k rows hd hr full in
          let rest : walk other (suc l) (some next.0) rows ≡ walk fuel (suc l) (some next.0) rows =
            walk-enough fuel other l (some next.0) (k + suc l) rows hd hr next.2
              (omega (arith, length-drop (k + suc l) rows, length-drop k rows))
              (omega (arith, length-drop (k + suc l) rows, length-drop k rows)) in
          walk-next other (suc l) cursor rows next.0 (page.1 ∙ next.1)
          ∙ ap (λ ps. (get_page (suc l) cursor none rows).items ∷ ps) rest
          ∙ sym (walk-next fuel (suc l) cursor rows next.0 (page.1 ∙ next.1))
      | inr e ↦
          let page = get_page-last (suc l) cursor k rows at (ground arith) in
          walk-last other (suc l) cursor rows page.1
          ∙ sym (walk-last fuel (suc l) cursor rows page.1)
    ]

-- A client that begins without a cursor and follows `next_cursor` gets, page after page, all rows in
-- order and each once, and stops after at most one page more than there are rows, however many it would
-- still ask for, if no two rows have one time and id, times and ids are in range, and a page holds one row
-- at least.
pub walk_complete :
    (l more : ℕ) (rows : List Row)
    → IsDescending rows
    → All IsRow rows
    → (concat (walk (length rows + 1) (suc l) none rows) ≡ rows)
      × (walk (length rows + 1 + more) (suc l) none rows ≡ walk (length rows + 1) (suc l) none rows)
unfolding IsAt with_cursor
walk_complete l more rows hd hr =
    let at = where_rows_full _ rows (All-true rows) in
    (
      walk-rows (length rows + 1) l none 0 rows hd hr at (omega arith),
      walk-enough (length rows + 1) (length rows + 1 + more) l none 0 rows hd hr at (omega arith)
          (omega arith),
    )
