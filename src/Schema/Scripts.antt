-- ===== src/Schema/Scripts.antt =====
-- The statements of the files in K-transaction-processor/src/migrations/schema, by their effect on the
-- catalogue.
use k_indexer.Prelude.{List, [], ◌∷◌}
use k_indexer.Text.{codes}
use k_indexer.Schema.Statements.{
  Statement, create_extension, create_table, create_index, drop_index, add_foreign_key, insert_var,
  update_var,
}

-- up.sql.
unfoldable pub schema_up : List Statement
schema_up =
    create_extension
    ∷ create_table (codes "k_vars")
    ∷ insert_var (codes "schema_version") (codes "2")
    ∷ create_table (codes "k_broadcasts")
    ∷ create_table (codes "k_votes")
    ∷ create_table (codes "k_mentions")
    ∷ create_index (codes "idx_k_broadcasts_transaction_id") (codes "k_broadcasts")
    ∷ create_index (codes "idx_k_broadcasts_sender_pubkey") (codes "k_broadcasts")
    ∷ create_index (codes "idx_k_broadcasts_block_time") (codes "k_broadcasts")
    ∷ create_index (codes "idx_k_votes_transaction_id") (codes "k_votes")
    ∷ create_index (codes "idx_k_votes_sender_pubkey") (codes "k_votes")
    ∷ create_index (codes "idx_k_votes_post_id") (codes "k_votes")
    ∷ create_index (codes "idx_k_votes_vote") (codes "k_votes")
    ∷ create_index (codes "idx_k_votes_block_time") (codes "k_votes")
    ∷ create_index (codes "idx_k_votes_post_id_sender") (codes "k_votes")
    ∷ create_table (codes "k_blocks")
    ∷ create_index (codes "idx_k_votes_sender_signature_unique") (codes "k_votes")
    ∷ create_index (codes "idx_k_blocks_sender_signature_unique") (codes "k_blocks")
    ∷ create_index (codes "idx_k_blocks_sender_blocked_user_unique") (codes "k_blocks")
    ∷ create_index (codes "idx_k_blocks_sender_pubkey") (codes "k_blocks")
    ∷ create_index (codes "idx_k_blocks_blocked_user_pubkey") (codes "k_blocks")
    ∷ create_index (codes "idx_k_blocks_block_time") (codes "k_blocks")
    ∷ create_index (codes "idx_k_mentions_comprehensive") (codes "k_mentions")
    ∷ create_index (codes "idx_k_mentions_content_id") (codes "k_mentions")
    ∷ create_index (codes "idx_k_mentions_mentioned_pubkey") (codes "k_mentions")
    ∷ create_table (codes "k_follows")
    ∷ create_index (codes "idx_k_follows_sender_signature_unique") (codes "k_follows")
    ∷ create_index (codes "idx_k_follows_sender_followed_user_unique") (codes "k_follows")
    ∷ create_index (codes "idx_k_follows_followed_user_pubkey") (codes "k_follows")
    ∷ create_index (codes "idx_k_follows_sender_pubkey") (codes "k_follows")
    ∷ create_index (codes "idx_k_follows_block_time") (codes "k_follows")
    ∷ create_table (codes "k_contents")
    ∷ create_index (codes "idx_k_contents_transaction_id") (codes "k_contents")
    ∷ create_index (codes "idx_k_contents_sender_signature_unique") (codes "k_contents")
    ∷ create_index (codes "idx_k_contents_sender_pubkey") (codes "k_contents")
    ∷ create_index (codes "idx_k_contents_block_time") (codes "k_contents")
    ∷ create_index (codes "idx_k_contents_replies") (codes "k_contents")
    ∷ create_index (codes "idx_k_contents_reposts") (codes "k_contents")
    ∷ create_index (codes "idx_k_contents_quotes") (codes "k_contents")
    ∷ create_index (codes "idx_k_contents_feed_optimized") (codes "k_contents")
    ∷ create_index (codes "idx_k_contents_content_type") (codes "k_contents")
    ∷ create_index (codes "idx_k_contents_sender_content_type") (codes "k_contents")
    ∷ create_table (codes "k_hashtags")
    ∷ create_index (codes "idx_k_hashtags_by_hashtag_time") (codes "k_hashtags")
    ∷ create_index (codes "idx_k_hashtags_pattern") (codes "k_hashtags")
    ∷ create_index (codes "idx_k_hashtags_trending") (codes "k_hashtags")
    ∷ create_index (codes "idx_k_hashtags_by_hashtag_sender") (codes "k_hashtags")
    ∷ add_foreign_key (codes "k_hashtags") (codes "fk_k_hashtags_content") (codes "k_contents")
    ∷ []

-- v0_to_v1.sql.
unfoldable pub migration_v0_to_v1 : List Statement
migration_v0_to_v1 =
    create_extension
    ∷ create_index (codes "idx_k_broadcasts_transaction_id") (codes "k_broadcasts")
    ∷ create_index (codes "idx_k_broadcasts_sender_pubkey") (codes "k_broadcasts")
    ∷ create_index (codes "idx_k_broadcasts_block_time") (codes "k_broadcasts")
    ∷ create_index (codes "idx_k_votes_transaction_id") (codes "k_votes")
    ∷ create_index (codes "idx_k_votes_sender_pubkey") (codes "k_votes")
    ∷ create_index (codes "idx_k_votes_post_id") (codes "k_votes")
    ∷ create_index (codes "idx_k_votes_vote") (codes "k_votes")
    ∷ create_index (codes "idx_k_votes_block_time") (codes "k_votes")
    ∷ create_index (codes "idx_k_votes_post_id_sender") (codes "k_votes")
    ∷ create_index (codes "idx_k_votes_sender_signature_unique") (codes "k_votes")
    ∷ create_index (codes "idx_k_blocks_sender_signature_unique") (codes "k_blocks")
    ∷ create_index (codes "idx_k_blocks_sender_blocked_user_unique") (codes "k_blocks")
    ∷ create_index (codes "idx_k_blocks_sender_pubkey") (codes "k_blocks")
    ∷ create_index (codes "idx_k_blocks_blocked_user_pubkey") (codes "k_blocks")
    ∷ create_index (codes "idx_k_blocks_block_time") (codes "k_blocks")
    ∷ create_index (codes "idx_k_mentions_comprehensive") (codes "k_mentions")
    ∷ create_index (codes "idx_k_mentions_content_id") (codes "k_mentions")
    ∷ create_index (codes "idx_k_mentions_mentioned_pubkey") (codes "k_mentions")
    ∷ create_index (codes "idx_k_follows_sender_signature_unique") (codes "k_follows")
    ∷ create_index (codes "idx_k_follows_sender_followed_user_unique") (codes "k_follows")
    ∷ create_index (codes "idx_k_follows_followed_user_pubkey") (codes "k_follows")
    ∷ create_index (codes "idx_k_follows_sender_pubkey") (codes "k_follows")
    ∷ create_index (codes "idx_k_follows_block_time") (codes "k_follows")
    ∷ create_index (codes "idx_k_contents_transaction_id") (codes "k_contents")
    ∷ create_index (codes "idx_k_contents_sender_signature_unique") (codes "k_contents")
    ∷ create_index (codes "idx_k_contents_sender_pubkey") (codes "k_contents")
    ∷ create_index (codes "idx_k_contents_block_time") (codes "k_contents")
    ∷ create_index (codes "idx_k_contents_replies") (codes "k_contents")
    ∷ create_index (codes "idx_k_contents_reposts") (codes "k_contents")
    ∷ create_index (codes "idx_k_contents_quotes") (codes "k_contents")
    ∷ create_index (codes "idx_k_contents_feed_covering") (codes "k_contents")
    ∷ create_index (codes "idx_k_contents_content_type") (codes "k_contents")
    ∷ create_index (codes "idx_k_contents_sender_content_type") (codes "k_contents")
    ∷ update_var (codes "schema_version") (codes "1")
    ∷ []

-- v1_to_v2.sql.
unfoldable pub migration_v1_to_v2 : List Statement
migration_v1_to_v2 =
    drop_index (codes "idx_k_contents_feed_covering")
    ∷ create_index (codes "idx_k_contents_feed_optimized") (codes "k_contents")
    ∷ create_table (codes "k_hashtags")
    ∷ create_index (codes "idx_k_hashtags_by_hashtag_time") (codes "k_hashtags")
    ∷ create_index (codes "idx_k_hashtags_pattern") (codes "k_hashtags")
    ∷ create_index (codes "idx_k_hashtags_trending") (codes "k_hashtags")
    ∷ create_index (codes "idx_k_hashtags_by_hashtag_sender") (codes "k_hashtags")
    ∷ add_foreign_key (codes "k_hashtags") (codes "fk_k_hashtags_content") (codes "k_contents")
    ∷ update_var (codes "schema_version") (codes "2")
    ∷ []
