-- ===== src/Store/Rows.antt =====
-- `WHERE` on a table: the rows that pass a test, and whether there is one.
use k_indexer.Prelude.{
  ◌≡◌, refl, Bool, true, false, not, ◌||◌, List, [], ◌∷◌, arith, All, if◌then◌else◌,
}

module _ {ℓ} {A : Type ℓ} where
  -- `SELECT … WHERE p`.
  unfoldable pub where_rows : (A → Bool) → List A → List A
  where_rows p [] = []
  where_rows p (x ∷ xs) = let rest = where_rows p xs in if p x then x ∷ rest else rest

  -- What `DELETE … WHERE p` leaves.
  unfoldable pub delete_rows : (A → Bool) → List A → List A
  unfolding where_rows
  delete_rows p = where_rows (λ x. not (p x))

  -- `EXISTS (SELECT … WHERE p)`.
  abbrev pub any : (A → Bool) → List A → Bool
  any p [] = false
  any p (x ∷ xs) = p x || any p xs

  pub where_rows-IsTrue : (p : A → Bool) (xs : List A) → All (λ x. p x ≡ true) (where_rows p xs)
  unfolding where_rows
  where_rows-IsTrue p [] = tt
  where_rows-IsTrue p (x ∷ xs) = ground (arith, where_rows-IsTrue p xs)

  pub where_rows_full :
      (p : A → Bool) (xs : List A) → All (λ x. p x ≡ true) xs → where_rows p xs ≡ xs
  unfolding where_rows
  where_rows_full p [] h = refl
  where_rows_full p (x ∷ xs) h = ground (arith, where_rows_full p xs h.1)

  -- Selecting twice is selecting once.
  pub where_rows_idem :
      (p : A → Bool) (xs : List A) → where_rows p (where_rows p xs) ≡ where_rows p xs
  where_rows_idem p xs = where_rows_full p (where_rows p xs) (where_rows-IsTrue p xs)

  pub any-where_rows :
      (q p : A → Bool) (xs : List A) → any q xs ≡ false → any q (where_rows p xs) ≡ false
  unfolding where_rows
  any-where_rows q p [] h = refl
  any-where_rows q p (x ∷ xs) h = ground (arith, any-where_rows q p xs)

module _ {ℓ κ} {A : Type ℓ} (P : A → Type κ) where
  pub All-where_rows : (p : A → Bool) (xs : List A) → All P xs → All P (where_rows p xs)
  unfolding where_rows
  All-where_rows p [] h = tt
  All-where_rows p (x ∷ xs) h = ground (arith, All-where_rows p xs h.1)

-- No two rows agree by `same`, as a unique index says.
abbrev pub IsUnique {ℓ} : {A : Type ℓ} → (A → A → Bool) → List A → Type 0
IsUnique same [] = Unit
IsUnique same (x ∷ xs) = (any (same x) xs ≡ false) × IsUnique same xs

pub IsUnique-where_rows {ℓ} :
    {A : Type ℓ} (same : A → A → Bool) (p : A → Bool) (xs : List A)
    → IsUnique same xs
    → IsUnique same (where_rows p xs)
unfolding where_rows
IsUnique-where_rows same p [] h = tt
IsUnique-where_rows same p (x ∷ xs) h =
    ground (arith, IsUnique-where_rows same p xs h.1, any-where_rows (same x) p xs h.0)
