-- ===== src/Remover/Laws.antt =====
-- The preview, the removal, and when the program removes.
use k_indexer.Prelude.{◌+◌, ◌≡◌, ◌⊎◌, refl, Bool, true, false, List, [], ◌∷◌, arith, length, All}
use k_indexer.Text.{Text, codes, text_eq}
use k_indexer.Store.{Bytes, Db}
use k_indexer.Store.Rows.{where_rows, delete_rows}
use k_indexer.Store.Invariant.{IsHashtag}
use k_indexer.Cleaner.{delete_contents}
use k_indexer.Cleaner.Cascade.{delete_contents-IsHashtag}
use k_indexer.Remover.{
  RemovalStats, total, is_empty, preview_removal, execute_removal, Config, is_confirmed, main,
}

-- A table before a deletion has the rows that are left and those that were counted.
length-delete_rows :
    {A : Type 0} (p : A → Bool) (xs : List A)
    → length xs ≡ length (delete_rows p xs) + length (where_rows p xs)
unfolding where_rows delete_rows
length-delete_rows p [] = omega arith
length-delete_rows p (x ∷ xs) = ground (arith, length-delete_rows p xs)

where_rows-delete_rows :
    {A : Type 0} (p : A → Bool) (xs : List A) → where_rows p (delete_rows p xs) ≡ []
unfolding where_rows delete_rows
where_rows-delete_rows p [] = refl
where_rows-delete_rows p (x ∷ xs) = ground (arith, where_rows-delete_rows p xs)

remaining :
    (target : Bytes) (db : Db)
    → is_empty (preview_removal target (execute_removal target db).1) ≡ true
unfolding execute_removal preview_removal is_empty total delete_contents
remaining target db = rw (
  where_rows-delete_rows (λ m. text_eq m.sender_pubkey target) db.k_mentions,
  where_rows-delete_rows (λ c. text_eq c.sender_pubkey target) db.k_contents,
  where_rows-delete_rows (λ v. text_eq v.sender_pubkey target) db.k_votes,
  where_rows-delete_rows (λ b. text_eq b.sender_pubkey target) db.k_broadcasts,
  where_rows-delete_rows (λ b. text_eq b.sender_pubkey target) db.k_blocks,
  where_rows-delete_rows (λ f. text_eq f.sender_pubkey target) db.k_follows,
)

-- What the removal promises.
pub record IsRemoved (target : Bytes) (db : Db) (stats : RemovalStats) (db' : Db) : Type 0 where
  pub previewed : preview_removal target db ≡ stats
  pub mentions : length db.k_mentions ≡ length db'.k_mentions + stats.mentions_deleted
  pub contents : length db.k_contents ≡ length db'.k_contents + stats.contents_deleted
  pub votes : length db.k_votes ≡ length db'.k_votes + stats.votes_deleted
  pub broadcasts : length db.k_broadcasts ≡ length db'.k_broadcasts + stats.broadcasts_deleted
  pub blocks : length db.k_blocks ≡ length db'.k_blocks + stats.blocks_deleted
  pub follows : length db.k_follows ≡ length db'.k_follows + stats.follows_deleted
  pub nothing_left : is_empty (preview_removal target db') ≡ true
  pub hashtags : All (IsHashtag db'.k_contents) db'.k_hashtags

-- The removal deletes as many rows of each table as the preview announced, leaves none that a preview
-- would find, and where every hashtag named a stored content of its sender and was short enough, so does
-- every one that is left.
pub execute_removal-IsRemoved :
    (target : Bytes) (db : Db)
    → All (IsHashtag db.k_contents) db.k_hashtags
    → IsRemoved target db (execute_removal target db).0 (execute_removal target db).1
unfolding execute_removal preview_removal is_empty total delete_contents
execute_removal-IsRemoved target db tags = record {
  previewed = refl;
  mentions = length-delete_rows (λ m. text_eq m.sender_pubkey target) db.k_mentions;
  contents = length-delete_rows (λ c. text_eq c.sender_pubkey target) db.k_contents;
  votes = length-delete_rows (λ v. text_eq v.sender_pubkey target) db.k_votes;
  broadcasts = length-delete_rows (λ b. text_eq b.sender_pubkey target) db.k_broadcasts;
  blocks = length-delete_rows (λ b. text_eq b.sender_pubkey target) db.k_blocks;
  follows = length-delete_rows (λ f. text_eq f.sender_pubkey target) db.k_follows;
  nothing_left = remaining target db;
  hashtags = delete_contents-IsHashtag (λ c. text_eq c.sender_pubkey target) db tags;
}

-- A run that is no dry run, and is confirmed or needs no confirmation, leaves no row of the six tables
-- that the target sent.
pub main_removes :
    (config : Config) (input : Text) (target : Bytes) (db : Db)
    → config.dry_run ≡ false
    → (config.skip_confirmation ≡ true) ⊎ (text_eq input (codes "DELETE") ≡ true)
    → is_empty (preview_removal target (main config input target db)) ≡ true
unfolding main is_confirmed
main_removes config input target db hd hc = let removed = remaining target db in ground arith
