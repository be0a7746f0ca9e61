-- ===== src/Cleaner/Laws.antt =====
-- What a purge cycle leaves.
use k_indexer.Prelude.{ℤ, ◌≡◌, Bool, true, false, not, List, [], ◌∷◌, arith, All, All-imp}
use k_indexer.Text.{text_eq, text_eq_refl}
use k_indexer.Store.{Bytes, Db}
use k_indexer.Store.Rows.{any, where_rows, delete_rows, where_rows-IsTrue, All-where_rows}
use k_indexer.Cleaner.{
  is_blocked, is_followed, is_old, is_orphaned_vote, purge_other_lists, purge_blocked,
  purge_contents, purge_old, purge_orphaned_replies, purge_orphaned_votes, delete_contents, execute,
  run, cycle,
}

module _ {ℓ} {A : Type ℓ} where
  pub All-both {κ μ ν} :
      {P : A → Type κ} {Q : A → Type μ} {R : A → Type ν} (xs : List A)
      → ((x : A) → P x → Q x → R x)
      → All P xs
      → All Q xs
      → All R xs
  All-both [] f p q = tt
  All-both (x ∷ xs) f (p, ps) (q, qs) = (f x p q, All-both xs f ps qs)

  pub delete_rows-IsFalse : (p : A → Bool) (xs : List A) → All (λ x. p x ≡ false) (delete_rows p xs)
  unfolding delete_rows
  delete_rows-IsFalse p xs =
      All-imp (where_rows (λ x. not (p x)) xs) (λ x h. ground arith)
        (where_rows-IsTrue (λ x. not (p x)) xs)

  -- A row that a test selects is one of the selected, by any key that it agrees with itself on.
  selected-any :
      (same : A → A → Bool)
      → ((x : A) → same x x ≡ true)
      → (selects : A → Bool) (xs : List A)
      → All (λ c. selects c ≡ true → any (λ s. same s c) (where_rows selects xs) ≡ true) xs
  unfolding where_rows
  selected-any same same-refl selects [] = tt
  selected-any same same-refl selects (x ∷ xs) = (
    λ h. ground (arith, same-refl x),
    All-imp xs (λ c ih h. ground (arith, ih h)) (selected-any same same-refl selects xs),
  )

  -- Deleting by the keys of the selected rows leaves no row that is selected.
  pub delete_selected :
      (same : A → A → Bool)
      → ((x : A) → same x x ≡ true)
      → (selects : A → Bool) (xs : List A)
      → All
          (λ c. selects c ≡ false)
          (delete_rows (λ c. any (λ s. same s c) (where_rows selects xs)) xs)
  unfolding delete_rows
  delete_selected same same-refl selects xs =
      let hit : A → Bool = λ c. any (λ s. same s c) (where_rows selects xs) in
      All-both (delete_rows hit xs) (λ c h k. ground arith)
        (All-where_rows (λ c. selects c ≡ true → hit c ≡ true) (λ c. not (hit c)) xs
          (selected-any same same-refl selects xs))
        (delete_rows-IsFalse hit xs)

-- What the owner of the database is left with.
pub record IsPurged (user : Bytes) (cutoff : ℤ) (db : Db) : Type 0 where
  pub own_blocks : All (λ b. text_eq b.sender_pubkey user ≡ true) db.k_blocks
  pub own_follows : All (λ f. text_eq f.sender_pubkey user ≡ true) db.k_follows
  pub contents : All (λ c. is_blocked user db c.sender_pubkey ≡ false) db.k_contents
  pub recent : All (λ c. is_old user cutoff db c ≡ false) db.k_contents
  pub votes : All (λ v. is_blocked user db v.sender_pubkey ≡ false) db.k_votes
  pub stored_posts : All (λ v. is_orphaned_vote db v ≡ false) db.k_votes

-- A complete cycle leaves its user's blocks and follows alone, no content or vote of a user that
-- they block, no post or quote older than the cutoff of a user that they do not follow, and no vote on a
-- content that is gone.
pub cycle-IsPurged :
    (user : Bytes) (cutoff : ℤ) (db : Db) → IsPurged user cutoff (cycle user cutoff (λ _. true) db)
unfolding cycle run execute purge_other_lists purge_blocked purge_old purge_orphaned_replies
    purge_orphaned_votes purge_contents delete_contents is_blocked is_old is_orphaned_vote
    is_followed delete_rows
cycle-IsPurged user cutoff db =
    let db₁ = purge_other_lists user db in
    let db₂ = purge_blocked user db₁ in
    let db₃ = purge_old user cutoff db₂ in
    record {
      own_blocks =
          All-imp _ (λ b h. ground arith)
            (delete_rows-IsFalse (λ b. not (text_eq b.sender_pubkey user)) db.k_blocks);
      own_follows =
          All-imp _ (λ f h. ground arith)
            (delete_rows-IsFalse (λ f. not (text_eq f.sender_pubkey user)) db.k_follows);
      contents =
          All-where_rows (λ c. is_blocked user db₁ c.sender_pubkey ≡ false) _ db₃.k_contents
            (All-where_rows (λ c. is_blocked user db₁ c.sender_pubkey ≡ false) _ db₂.k_contents
              (delete_rows-IsFalse (λ c. is_blocked user db₁ c.sender_pubkey) db.k_contents));
      recent =
          All-where_rows (λ c. is_old user cutoff db₂ c ≡ false) _ db₃.k_contents
            (delete_selected (λ s c. text_eq s.transaction_id c.transaction_id)
              (λ c. text_eq_refl c.transaction_id) (is_old user cutoff db₂) db₂.k_contents);
      votes =
          All-where_rows (λ v. is_blocked user db₁ v.sender_pubkey ≡ false) _ db₂.k_votes
            (delete_rows-IsFalse (λ v. is_blocked user db₁ v.sender_pubkey) db.k_votes);
      stored_posts =
          let db₄ = purge_orphaned_replies db₃ in
          delete_selected (λ s v. text_eq s.transaction_id v.transaction_id)
            (λ v. text_eq_refl v.transaction_id) (is_orphaned_vote db₄) db₄.k_votes;
    }
