-- ===== src/Cleaner.antt =====
-- K-database-cleaner: the five purge operations (src/purge_operations/operation_1.rs to operation_5.rs)
-- on the tables of Store.antt, and the cycle of src/main.rs. The statements of one `WITH` read one
-- snapshot. Deleting a content deletes its hashtags, by the foreign key's ON DELETE CASCADE. The counts
-- that the operations log are not modelled.
pub mod Cascade
pub mod Survival
pub mod Laws
pub mod Tests
use k_indexer.Prelude.{
  ℕ, ℤ, ltb_ℤ, Bool, true, false, not, ◌&&◌, ◌||◌, Option, none, some, List, [], ◌∷◌, if◌then◌else◌,
}
use k_indexer.Text.{text_eq}
use k_indexer.Store.{
  Bytes, ContentType, post, reply, quote, BlockRow, FollowRow, VoteRow, MentionRow, ContentRow,
  HashtagRow, Db,
}
use k_indexer.Store.Rows.{any, where_rows, delete_rows}

-- `content_id IN (SELECT transaction_id FROM …)` on mentions and on hashtags.
unfoldable pub mentions_content : List ContentRow → MentionRow → Bool
mentions_content cs m = any (λ c. text_eq c.transaction_id m.content_id) cs

unfoldable pub mentions_vote : List VoteRow → MentionRow → Bool
mentions_vote vs m = any (λ v. text_eq v.transaction_id m.content_id) vs

unfoldable pub tags_content : List ContentRow → HashtagRow → Bool
tags_content cs h = any (λ c. text_eq c.transaction_id h.content_id) cs

-- `DELETE FROM k_contents WHERE p`, with the hashtags of the deleted rows.
unfoldable pub delete_contents : (ContentRow → Bool) → Db → Db
unfolding tags_content
delete_contents p db = record db {
  k_contents = delete_rows p db.k_contents;
  k_hashtags = delete_rows (tags_content (where_rows p db.k_contents)) db.k_hashtags;
}

-- Operation 1: `sender_pubkey != $1`.
unfoldable pub purge_other_lists : Bytes → Db → Db
purge_other_lists user db = record db {
  k_blocks = delete_rows (λ b. not (text_eq b.sender_pubkey user)) db.k_blocks;
  k_follows = delete_rows (λ f. not (text_eq f.sender_pubkey user)) db.k_follows;
}

-- `sender_pubkey IN (SELECT blocked_user_pubkey FROM blocked_users)`.
unfoldable pub is_blocked : Bytes → Db → Bytes → Bool
is_blocked user db sender =
    any (λ b. text_eq b.sender_pubkey user && text_eq b.blocked_user_pubkey sender) db.k_blocks

-- Operation 2.
unfoldable pub purge_blocked : Bytes → Db → Db
unfolding delete_contents is_blocked mentions_content mentions_vote
purge_blocked user db =
    let contents = where_rows (λ c. is_blocked user db c.sender_pubkey) db.k_contents in
    let votes = where_rows (λ v. is_blocked user db v.sender_pubkey) db.k_votes in
    record (delete_contents (λ c. is_blocked user db c.sender_pubkey) db) {
      k_mentions =
          delete_rows (λ m. mentions_content contents m || mentions_vote votes m) db.k_mentions;
      k_votes = delete_rows (λ v. is_blocked user db v.sender_pubkey) db.k_votes;
    }

unfoldable pub is_followed : Bytes → Db → Bytes → Bool
is_followed user db sender =
    any (λ f. text_eq f.sender_pubkey user && text_eq f.followed_user_pubkey sender) db.k_follows

-- `content_type IN ('post', 'quote')`.
unfoldable pub is_post_or_quote : ContentType → Bool
is_post_or_quote post = true
is_post_or_quote quote = true
is_post_or_quote _ = false

unfoldable pub is_old : Bytes → ℤ → Db → ContentRow → Bool
unfolding is_followed is_post_or_quote
is_old user cutoff db c =
    is_post_or_quote c.content_type
    && ltb_ℤ c.block_time cutoff
    && not (text_eq c.sender_pubkey user)
    && not (is_followed user db c.sender_pubkey)

-- Contents that a test selects are deleted by their transaction ids, and so are their mentions.
unfoldable pub purge_contents : (ContentRow → Bool) → Db → Db
unfolding delete_contents mentions_content
purge_contents selects db =
    let selected = where_rows selects db.k_contents in
    record (delete_contents (λ c. any (λ s. text_eq s.transaction_id c.transaction_id) selected)
      db) { k_mentions = delete_rows (mentions_content selected) db.k_mentions }

-- Operation 3.
unfoldable pub purge_old : Bytes → ℤ → Db → Db
unfolding purge_contents is_old
purge_old user cutoff db = purge_contents (is_old user cutoff db) db

unfoldable pub is_stored : List ContentRow → Bytes → Bool
is_stored cs id = any (λ c. text_eq c.transaction_id id) cs

unfoldable pub is_reply : ContentType → Bool
is_reply reply = true
is_reply _ = false

unfoldable pub is_orphaned_reply : Db → ContentRow → Bool
unfolding is_reply is_stored
is_orphaned_reply db c =
    is_reply c.content_type
    && elim c.referenced_content_id [ some id ↦ not (is_stored db.k_contents id) | none ↦ false ]

-- Operation 4.
unfoldable pub purge_orphaned_replies : Db → Db
unfolding purge_contents is_orphaned_reply
purge_orphaned_replies db = purge_contents (is_orphaned_reply db) db

unfoldable pub is_orphaned_vote : Db → VoteRow → Bool
unfolding is_stored
is_orphaned_vote db v = not (is_stored db.k_contents v.post_id)

-- Operation 5.
unfoldable pub purge_orphaned_votes : Db → Db
unfolding is_orphaned_vote mentions_vote
purge_orphaned_votes db =
    let selected = where_rows (is_orphaned_vote db) db.k_votes in
    record db {
      k_mentions = delete_rows (mentions_vote selected) db.k_mentions;
      k_votes =
          delete_rows (λ v. any (λ s. text_eq s.transaction_id v.transaction_id) selected)
            db.k_votes;
    }

pub data Operation : Type 0 where
  operation_1 operation_2 operation_3 operation_4 operation_5 : Operation

-- `cutoff` is the time of operation 3 less the retention period, in milliseconds.
unfoldable pub execute : Bytes → ℤ → Operation → Db → Db
unfolding purge_other_lists purge_blocked purge_old purge_orphaned_replies purge_orphaned_votes
execute user cutoff operation_1 db = purge_other_lists user db
execute user cutoff operation_2 db = purge_blocked user db
execute user cutoff operation_3 db = purge_old user cutoff db
execute user cutoff operation_4 db = purge_orphaned_replies db
execute user cutoff operation_5 db = purge_orphaned_votes db

-- An operation that fails skips the rest of the cycle. `succeeds` tells which operations do not fail.
unfoldable pub run : Bytes → ℤ → (Operation → Bool) → List Operation → Db → Db
unfolding execute
run user cutoff succeeds [] db = db
run user cutoff succeeds (op ∷ ops) db =
    let rest = run user cutoff succeeds ops (execute user cutoff op db) in
    if succeeds op then rest else db

abbrev pub operations : List Operation
operations = operation_1 ∷ operation_2 ∷ operation_3 ∷ operation_4 ∷ operation_5 ∷ []

-- One pass of the loop.
unfoldable pub cycle : Bytes → ℤ → (Operation → Bool) → Db → Db
unfolding run
cycle user cutoff succeeds = run user cutoff succeeds operations
