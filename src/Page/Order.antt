-- ===== src/Page/Order.antt =====
-- The order of the rows, and what a cut of their list leaves.
use k_indexer.Prelude.{
  ℕ, pos, zero, suc, ◌+◌, ◌<◌, ◌≤◌, ◌≡◌, refl, subst, sym, ap, ◌∙◌, true, false, some, List, [],
  ◌∷◌, length, take, drop, get_elem?, All, arith,
}
use k_indexer.Store.Rows.{where_rows, where_rows_full}
use k_indexer.Cursor.{max_i64}
use k_indexer.Cursor.RoundTrip.{IsI64}
use k_indexer.Page.{Row, eq_ℤ, is_before, pop, last}

-- `ORDER BY block_time DESC, id DESC`, with no two rows of one time and id.
abbrev pub IsDescending : List Row → Type 0
IsDescending [] = Unit
IsDescending (r ∷ rs) = All (λ s. is_before r.block_time r.id s ≡ true) rs × IsDescending rs

-- Block times are not negative.
abbrev pub IsRow : Row → Type 0
IsRow r = (n : ℕ) × (r.block_time ≡ pos n) × (n ≤ max_i64) × IsI64 r.id

pub is_before_irrefl : (r : Row) → is_before r.block_time r.id r ≡ false
unfolding is_before eq_ℤ
is_before_irrefl r = ground arith

pub is_before-asym :
    (r s : Row) → is_before r.block_time r.id s ≡ true → is_before s.block_time s.id r ≡ false
unfolding is_before eq_ℤ
is_before-asym r s h = ground arith

pub All-get_elem? :
    {A : Type 0} (P : A → Type 0) (xs : List A) (i : ℕ) (x : A)
    → All P xs
    → get_elem? xs i ≡ some x
    → P x
All-get_elem? P [] i x h e = absurd (cc)
All-get_elem? P (y ∷ ys) zero x h e = let q : y ≡ x = cc in subst P q h.0
All-get_elem? P (y ∷ ys) (suc i) x h e = All-get_elem? P ys i x h.1 e

-- The rows before the n-th are those that follow it.
pub where_rows-before :
    (rows : List Row) (n : ℕ) (r : Row)
    → IsDescending rows
    → get_elem? rows n ≡ some r
    → where_rows (is_before r.block_time r.id) rows ≡ drop (suc n) rows
unfolding where_rows
where_rows-before [] n r h e = absurd (cc)
where_rows-before (x ∷ rows) zero r h e =
    let q : x ≡ r = cc in
    subst (λ u. where_rows (is_before u.block_time u.id) (x ∷ rows) ≡ rows) q
      (rw (is_before_irrefl x) (where_rows_full (is_before x.block_time x.id) rows h.0))
where_rows-before (x ∷ rows) (suc n) r h e =
    let newer : is_before x.block_time x.id r ≡ true =
      All-get_elem? (λ s. is_before x.block_time x.id s ≡ true) rows n r h.0 e in
    rw (is_before-asym x r newer) (where_rows-before rows n r h.1 e)

pub pop-take : (n : ℕ) (rows : List Row) → n < length rows → pop (take (suc n) rows) ≡ take n rows
unfolding pop
pop-take n [] h = absurd (omega arith)
pop-take zero (r ∷ rows) h = refl
pop-take (suc n) (r ∷ []) h = absurd (omega arith)
pop-take (suc n) (r ∷ s ∷ rows) h = ap (λ l. r ∷ l) (pop-take n (s ∷ rows) (omega arith))

-- The last row of a full page.
pub last-take :
    (n : ℕ) (rows : List Row)
    → n < length rows
    → (r : Row) × (last (take (suc n) rows) ≡ some r) × (get_elem? rows n ≡ some r)
unfolding last
last-take n [] h = absurd (omega arith)
last-take zero (r ∷ rows) h = (r, refl, refl)
last-take (suc n) (r ∷ []) h = absurd (omega arith)
last-take (suc n) (r ∷ s ∷ rows) h = last-take n (s ∷ rows) (omega arith)

pub get_elem?-drop :
    {A : Type 0} (k i : ℕ) (xs : List A) → get_elem? (drop k xs) i ≡ get_elem? xs (k + i)
get_elem?-drop zero i xs = ap (get_elem? xs) (omega arith)
get_elem?-drop (suc k) i [] = refl
get_elem?-drop (suc k) i (x ∷ xs) =
    let e : suc k + i ≡ suc (k + i) = omega arith in
    get_elem?-drop k i xs ∙ sym (ap (get_elem? (x ∷ xs)) e)

pub drop_nil : {A : Type 0} (n : ℕ) → drop {A = A} n [] ≡ []
drop_nil zero = refl
drop_nil (suc n) = refl

pub drop-drop : {A : Type 0} (n k : ℕ) (xs : List A) → drop n (drop k xs) ≡ drop (k + n) xs
drop-drop n zero xs = ap (λ m. drop m xs) (omega arith)
drop-drop n (suc k) [] = drop_nil n ∙ sym (drop_nil (suc k + n))
drop-drop n (suc k) (x ∷ xs) =
    let e : suc k + n ≡ suc (k + n) = omega arith in
    drop-drop n k xs ∙ sym (ap (λ m. drop m (x ∷ xs)) e)
