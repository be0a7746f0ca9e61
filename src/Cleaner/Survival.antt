-- ===== src/Cleaner/Survival.antt =====
-- What no purge cycle deletes, whichever of its operations fail.
use k_indexer.Prelude.{
  ℤ, ◌≡◌, refl, ap, ◌∙◌, Bool, true, false, not, ◌&&◌, ◌||◌, List, [], ◌∷◌, arith, All, All-imp,
  if◌then◌else◌,
}
use k_indexer.Text.{Text, text_eq, text_eq_refl, text_eq_comm}
use k_indexer.Store.{Bytes, ContentRow, ContentType, post, reply, repost, quote, vote, Db}
use k_indexer.Store.Rows.{
  any, where_rows, delete_rows, any-where_rows, IsUnique, IsUnique-where_rows,
}
use k_indexer.Store.Statements.{same_content_id}
use k_indexer.Cleaner.{
  is_blocked, is_followed, is_old, is_post_or_quote, is_reply, is_orphaned_reply, purge_other_lists,
  purge_blocked, purge_contents, purge_old, purge_orphaned_replies, purge_orphaned_votes,
  delete_contents, Operation, operation_1, operation_2, operation_3, operation_4, operation_5,
  execute, run, operations, cycle,
}
use k_indexer.Cleaner.Laws.{All-both}

module _ {ℓ} {A : Type ℓ} where
  where_rows-ext :
      (p q : A → Bool) (xs : List A) → All (λ x. p x ≡ q x) xs → where_rows p xs ≡ where_rows q xs
  unfolding where_rows
  where_rows-ext p q [] h = refl
  where_rows-ext p q (x ∷ xs) h = ground (arith, where_rows-ext p q xs h.1)

  -- A deletion that misses what a test keeps leaves what the test selects.
  where_rows-spared :
      (keep p : A → Bool) (xs : List A)
      → ((x : A) → keep x ≡ true → p x ≡ false)
      → where_rows keep (delete_rows p xs) ≡ where_rows keep xs
  unfolding where_rows delete_rows
  where_rows-spared keep p [] h = refl
  where_rows-spared keep p (x ∷ xs) h = ground (arith, h x, where_rows-spared keep p xs h)

  any-All : (p : A → Bool) (xs : List A) → any p xs ≡ false → All (λ x. p x ≡ false) xs
  any-All p [] h = tt
  any-All p (x ∷ xs) h = (ground arith, any-All p xs (ground arith))

  -- The rows that another test deletes do not count.
  any-own :
      (own q : A → Bool) (xs : List A)
      → any (λ x. own x && q x) (delete_rows (λ x. not (own x)) xs) ≡ any (λ x. own x && q x) xs
  unfolding where_rows delete_rows
  any-own own q [] = refl
  any-own own q (x ∷ xs) = ground (arith, any-own own q xs)

module _ {A : Type 0} (key : A → Text) where
  any-key :
      (k : Text) (xs : List A) → any (λ s. text_eq (key s) k) xs ≡ any (λ s. text_eq k (key s)) xs
  any-key k [] = refl
  any-key k (x ∷ xs) = ground (arith, any-key k xs, text_eq_comm (key x) k)

  -- Where keys are unique, a row has the key of a selected one just when it is selected.
  selected-key :
      (selects : A → Bool) (xs : List A)
      → IsUnique (λ x y. text_eq (key x) (key y)) xs
      → All (λ c. any (λ s. text_eq (key s) (key c)) (where_rows selects xs) ≡ selects c) xs
  unfolding where_rows
  selected-key selects [] h = tt
  selected-key selects (x ∷ xs) h =
      let other : any (λ s. text_eq (key s) (key x)) (where_rows selects xs) ≡ false =
        any-where_rows (λ s. text_eq (key s) (key x)) selects xs (any-key (key x) xs ∙ h.0) in
      (
        ground (arith, other, text_eq_refl (key x)),
        All-both xs (λ c p q. ground arith) (any-All (λ y. text_eq (key x) (key y)) xs h.0)
            (selected-key selects xs h.1),
      )

  delete-selected_key :
      (selects : A → Bool) (xs : List A)
      → IsUnique (λ x y. text_eq (key x) (key y)) xs
      → delete_rows (λ c. any (λ s. text_eq (key s) (key c)) (where_rows selects xs)) xs
        ≡ delete_rows selects xs
  unfolding delete_rows
  delete-selected_key selects xs h =
      where_rows-ext _ (λ c. not (selects c)) xs
        (All-imp xs (λ c e. ap not e) (selected-key selects xs h))

IsUnique-delete_rows :
    (p : ContentRow → Bool) (cs : List ContentRow)
    → IsUnique same_content_id cs
    → IsUnique same_content_id (delete_rows p cs)
unfolding delete_rows
IsUnique-delete_rows p cs = IsUnique-where_rows same_content_id (λ c. not (p c)) cs

-- The posts and quotes of the user and of those that they follow, less those of blocked users.
unfoldable pub is_kept : Bytes → Db → ContentRow → Bool
is_kept user db c =
    is_post_or_quote c.content_type
    && (text_eq c.sender_pubkey user || is_followed user db c.sender_pubkey)
    && not (is_blocked user db c.sender_pubkey)

module _ (user : Bytes) (cutoff : ℤ) (db₀ : Db) where
  -- What holds between the operations of a cycle that began at `db₀`.
  record IsSpared (db : Db) : Type 0 where
    contents :
        where_rows (is_kept user db₀) db.k_contents ≡ where_rows (is_kept user db₀) db₀.k_contents
    unique : IsUnique same_content_id db.k_contents
    blocked : (s : Bytes) → is_blocked user db s ≡ is_blocked user db₀ s
    followed : (s : Bytes) → is_followed user db s ≡ is_followed user db₀ s

  purge_contents-IsSpared :
      (selects : ContentRow → Bool) (db : Db)
      → ((c : ContentRow) → is_kept user db₀ c ≡ true → selects c ≡ false)
      → IsSpared db
      → IsSpared (purge_contents selects db)
  unfolding purge_contents delete_contents is_blocked is_followed
  purge_contents-IsSpared selects db h i = record {
    contents =
        rw (delete-selected_key (λ c. c.transaction_id) selects db.k_contents i.unique)
          (where_rows-spared (is_kept user db₀) selects db.k_contents h ∙ i.contents);
    unique =
        rw (delete-selected_key (λ c. c.transaction_id) selects db.k_contents i.unique)
          (IsUnique-delete_rows selects db.k_contents i.unique);
    blocked = i.blocked;
    followed = i.followed;
  }

  purge_other_lists-IsSpared : (db : Db) → IsSpared db → IsSpared (purge_other_lists user db)
  unfolding purge_other_lists is_blocked is_followed
  purge_other_lists-IsSpared db i = record {
    contents = i.contents;
    unique = i.unique;
    blocked = λ s.
        any-own (λ b. text_eq b.sender_pubkey user) (λ b. text_eq b.blocked_user_pubkey s)
          db.k_blocks
        ∙ i.blocked s;
    followed = λ s.
        any-own (λ f. text_eq f.sender_pubkey user) (λ f. text_eq f.followed_user_pubkey s)
          db.k_follows
        ∙ i.followed s;
  }

  kept-unblocked :
      (db : Db)
      → IsSpared db
      → (c : ContentRow) → is_kept user db₀ c ≡ true
      → is_blocked user db c.sender_pubkey ≡ false
  unfolding is_kept
  kept-unblocked db i c h = ground (arith, i.blocked c.sender_pubkey)

  kept-recent :
      (db : Db)
      → IsSpared db
      → (c : ContentRow) → is_kept user db₀ c ≡ true
      → is_old user cutoff db c ≡ false
  unfolding is_kept is_old
  kept-recent db i c h = ground (arith, i.followed c.sender_pubkey)

  is_reply-other : (t : ContentType) → is_post_or_quote t ≡ true → is_reply t ≡ false
  unfolding is_reply is_post_or_quote
  is_reply-other post h = refl
  is_reply-other reply h = absurd (cc)
  is_reply-other repost h = refl
  is_reply-other quote h = refl
  is_reply-other vote h = refl

  kept-no_reply :
      (db : Db) → (c : ContentRow) → is_kept user db₀ c ≡ true → is_orphaned_reply db c ≡ false
  unfolding is_kept is_orphaned_reply
  kept-no_reply db c h = ground (arith, is_reply-other c.content_type)

  purge_blocked-IsSpared : (db : Db) → IsSpared db → IsSpared (purge_blocked user db)
  unfolding purge_blocked delete_contents is_blocked is_followed
  purge_blocked-IsSpared db i = record {
    contents =
        where_rows-spared (is_kept user db₀) (λ c. is_blocked user db c.sender_pubkey) db.k_contents
          (kept-unblocked db i)
        ∙ i.contents;
    unique = IsUnique-delete_rows (λ c. is_blocked user db c.sender_pubkey) db.k_contents i.unique;
    blocked = i.blocked;
    followed = i.followed;
  }

  execute-IsSpared : (op : Operation) (db : Db) → IsSpared db → IsSpared (execute user cutoff op db)
  unfolding execute purge_old purge_orphaned_replies purge_orphaned_votes is_blocked is_followed
  execute-IsSpared operation_1 db i = purge_other_lists-IsSpared db i
  execute-IsSpared operation_2 db i = purge_blocked-IsSpared db i
  execute-IsSpared operation_3 db i =
      purge_contents-IsSpared (is_old user cutoff db) db (kept-recent db i) i
  execute-IsSpared operation_4 db i =
      purge_contents-IsSpared (is_orphaned_reply db) db (kept-no_reply db) i
  execute-IsSpared operation_5 db i = record {
    contents = i.contents;
    unique = i.unique;
    blocked = i.blocked;
    followed = i.followed;
  }

  run-IsSpared :
      (succeeds : Operation → Bool) (ops : List Operation) (db : Db)
      → IsSpared db
      → IsSpared (run user cutoff succeeds ops db)
  unfolding run
  run-IsSpared succeeds [] db i = i
  run-IsSpared succeeds (op ∷ ops) db i =
      elim (succeeds op)
        as (λ b.
          IsSpared (if b then run user cutoff succeeds ops (execute user cutoff op db) else db)) [
            | true ↦
                run-IsSpared succeeds ops (execute user cutoff op db) (execute-IsSpared op db i)
            | false ↦ i
          ]

-- Where transaction ids are unique, a purge cycle, whichever of its operations fail, keeps every post and
-- quote of its user and of those that they follow, unless they block its sender.
pub cycle-keeps :
    (user : Bytes) (cutoff : ℤ) (succeeds : Operation → Bool) (db : Db)
    → IsUnique same_content_id db.k_contents
    → where_rows (is_kept user db) (cycle user cutoff succeeds db).k_contents
      ≡ where_rows (is_kept user db) db.k_contents
unfolding cycle
cycle-keeps user cutoff succeeds db h =
    (run-IsSpared user cutoff db succeeds operations db
      (record { contents = refl; unique = h; blocked = λ s. refl; followed = λ s. refl })).contents
