-- ===== src/Remover.antt =====
-- K-content-remover: src/removal_operation.rs on the tables of Store.antt, and the flow of src/main.rs
-- from the preview to the removal.
pub mod Laws
pub mod Tests
use k_indexer.Prelude.{
  ℕ, ◌+◌, Bool, true, not, Option, none, some, List, [], ◌∷◌, ◌==◌, if◌then◌else◌, length,
}
use k_indexer.Text.{Text, codes, text_eq}
use k_indexer.Store.{Bytes, Db}
use k_indexer.Store.Rows.{where_rows, delete_rows}
use k_indexer.Cleaner.{delete_contents}

pub record RemovalStats : Type 0 where
  pub mentions_deleted : ℕ
  pub contents_deleted : ℕ
  pub votes_deleted : ℕ
  pub broadcasts_deleted : ℕ
  pub blocks_deleted : ℕ
  pub follows_deleted : ℕ

unfoldable pub total : RemovalStats → ℕ
total s =
    s.mentions_deleted + s.contents_deleted + s.votes_deleted + s.broadcasts_deleted
    + s.blocks_deleted + s.follows_deleted

unfoldable pub is_empty : RemovalStats → Bool
unfolding total
is_empty s = total s == 0

-- The six counts of the rows that the target user sent.
unfoldable pub preview_removal : Bytes → Db → RemovalStats
preview_removal target db = record {
  mentions_deleted = length (where_rows (λ m. text_eq m.sender_pubkey target) db.k_mentions);
  contents_deleted = length (where_rows (λ c. text_eq c.sender_pubkey target) db.k_contents);
  votes_deleted = length (where_rows (λ v. text_eq v.sender_pubkey target) db.k_votes);
  broadcasts_deleted = length (where_rows (λ b. text_eq b.sender_pubkey target) db.k_broadcasts);
  blocks_deleted = length (where_rows (λ b. text_eq b.sender_pubkey target) db.k_blocks);
  follows_deleted = length (where_rows (λ f. text_eq f.sender_pubkey target) db.k_follows);
}

-- The statement that deletes from the six tables; it returns the number of rows that each lost.
unfoldable pub execute_removal : Bytes → Db → RemovalStats × Db
unfolding delete_contents
execute_removal target db =
    let contents = delete_contents (λ c. text_eq c.sender_pubkey target) db in
    (
      record {
        mentions_deleted = length (where_rows (λ m. text_eq m.sender_pubkey target) db.k_mentions);
        contents_deleted = length (where_rows (λ c. text_eq c.sender_pubkey target) db.k_contents);
        votes_deleted = length (where_rows (λ v. text_eq v.sender_pubkey target) db.k_votes);
        broadcasts_deleted =
            length (where_rows (λ b. text_eq b.sender_pubkey target) db.k_broadcasts);
        blocks_deleted = length (where_rows (λ b. text_eq b.sender_pubkey target) db.k_blocks);
        follows_deleted = length (where_rows (λ f. text_eq f.sender_pubkey target) db.k_follows);
      },
      record contents {
        k_mentions = delete_rows (λ m. text_eq m.sender_pubkey target) db.k_mentions;
        k_votes = delete_rows (λ v. text_eq v.sender_pubkey target) db.k_votes;
        k_broadcasts = delete_rows (λ b. text_eq b.sender_pubkey target) db.k_broadcasts;
        k_blocks = delete_rows (λ b. text_eq b.sender_pubkey target) db.k_blocks;
        k_follows = delete_rows (λ f. text_eq f.sender_pubkey target) db.k_follows;
      },
    )

-- The options of the command line that the flow reads.
pub record Config : Type 0 where
  pub dry_run : Bool
  pub skip_confirmation : Bool

-- What is typed at the prompt, after `trim`.
unfoldable pub is_confirmed : Config → Text → Bool
is_confirmed config input =
    if not config.skip_confirmation then text_eq input (codes "DELETE") else true

-- The program after its configuration is read.
unfoldable pub main : Config → Text → Bytes → Db → Db
unfolding is_empty preview_removal is_confirmed execute_removal
main config input target db =
    if is_empty (preview_removal target db)
    then db
    else if config.dry_run
    then db
    else if not (is_confirmed config input)
    then db
    else (execute_removal target db).1
