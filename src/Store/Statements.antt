-- ===== src/Store/Statements.antt =====
-- The statements that K-transaction-processor/src/k_protocol.rs executes. A statement returns the new
-- tables, or `none` when it violates a constraint; PostgreSQL then undoes the whole statement.
-- `ON CONFLICT (index) DO NOTHING` covers the named index alone: a clash with another unique index
-- is an error, and so is a value that a CHECK constraint refuses.
use k_indexer.Prelude.{
  Bool, not, ◌&&◌, ◌||◌, Option, none, some, List, [], ◌∷◌, ◌++◌, ltb, length, if◌then◌else◌,
}
use k_indexer.Text.{Text, codes, text_eq}
use k_indexer.Protocol.Parse.{is_one_of}
use k_indexer.Store.{
  Bytes, vote, BroadcastRow, VoteRow, MentionRow, BlockRow, FollowRow, ContentRow, HashtagRow, Db,
}
use k_indexer.Store.Rows.{any, delete_rows}

-- The unique indexes, as what makes two rows clash.
abbrev pub same_content_signature : ContentRow → ContentRow → Bool
same_content_signature r s = text_eq r.sender_signature s.sender_signature

abbrev pub same_content_id : ContentRow → ContentRow → Bool
same_content_id r s = text_eq r.transaction_id s.transaction_id

abbrev pub same_vote_signature : VoteRow → VoteRow → Bool
same_vote_signature r s = text_eq r.sender_signature s.sender_signature

abbrev pub same_vote_id : VoteRow → VoteRow → Bool
same_vote_id r s = text_eq r.transaction_id s.transaction_id

abbrev pub same_blocked_user : BlockRow → BlockRow → Bool
same_blocked_user r s =
    text_eq r.sender_pubkey s.sender_pubkey && text_eq r.blocked_user_pubkey s.blocked_user_pubkey

-- The other unique indexes of `k_blocks`: the transaction and the signature.
abbrev pub same_block : BlockRow → BlockRow → Bool
same_block r s =
    text_eq r.transaction_id s.transaction_id || text_eq r.sender_signature s.sender_signature

abbrev pub same_followed_user : FollowRow → FollowRow → Bool
same_followed_user r s =
    text_eq r.sender_pubkey s.sender_pubkey && text_eq r.followed_user_pubkey s.followed_user_pubkey

abbrev pub same_follow : FollowRow → FollowRow → Bool
same_follow r s =
    text_eq r.transaction_id s.transaction_id || text_eq r.sender_signature s.sender_signature

abbrev pub same_broadcast_id : BroadcastRow → BroadcastRow → Bool
same_broadcast_id r s = text_eq r.transaction_id s.transaction_id

-- The rows that `SELECT …, unnest($n) FROM …_insert` yields for the row that was inserted.
unfoldable pub mentions_of : ContentRow → List Bytes → List MentionRow
mentions_of r [] = []
mentions_of r (pubkey ∷ pubkeys) =
    record {
      content_id = r.transaction_id;
      content_type = r.content_type;
      mentioned_pubkey = pubkey;
      block_time = r.block_time;
      sender_pubkey = r.sender_pubkey;
    }
    ∷ mentions_of r pubkeys

unfoldable pub hashtags_of : ContentRow → List Text → List HashtagRow
hashtags_of r [] = []
hashtags_of r (tag ∷ tags) =
    record {
      sender_pubkey = r.sender_pubkey;
      content_id = r.transaction_id;
      block_time = r.block_time;
      hashtag = tag;
    }
    ∷ hashtags_of r tags

-- `hashtag VARCHAR(30)` counts characters.
abbrev pub is_too_long : Text → Bool
is_too_long tag = ltb 30 (length tag)

-- The insert into `k_contents` with its mentions and hashtags, in one statement.
unfoldable pub insert_content : ContentRow → List Bytes → List Text → Db → Option Db
unfolding mentions_of hashtags_of
insert_content r mentions hashtags db =
    if any (same_content_signature r) db.k_contents
    then some db
    else if any (same_content_id r) db.k_contents
    then none
    else if any is_too_long hashtags
    then none
    else some (record db {
      k_contents = r ∷ db.k_contents;
      k_mentions = mentions_of r mentions ++ db.k_mentions;
      k_hashtags = hashtags_of r hashtags ++ db.k_hashtags;
    })

-- The mention row that goes with a vote.
abbrev pub mention_of_vote : VoteRow → Bytes → MentionRow
mention_of_vote r pubkey = record {
  content_id = r.transaction_id;
  content_type = vote;
  mentioned_pubkey = pubkey;
  block_time = r.block_time;
  sender_pubkey = r.sender_pubkey;
}

unfoldable pub insert_vote : VoteRow → Bytes → Db → Option Db
insert_vote r mentioned_pubkey db =
    if not (is_one_of (codes "upvote") (codes "downvote") r.vote)
    then none
    else if any (same_vote_signature r) db.k_votes
    then some db
    else if any (same_vote_id r) db.k_votes
    then none
    else some (record db {
      k_votes = r ∷ db.k_votes;
      k_mentions = mention_of_vote r mentioned_pubkey ∷ db.k_mentions;
    })

-- `DELETE … WHERE sender_pubkey = $3 AND transaction_id != $1` and the insert read the same
-- snapshot; the rows that the delete leaves alone are those that the insert can clash with. Two such
-- statements at the same time do not see each other's rows, which a serial order of steps leaves out.
abbrev pub is_replaced_by : BroadcastRow → BroadcastRow → Bool
is_replaced_by r s =
    text_eq s.sender_pubkey r.sender_pubkey && not (text_eq s.transaction_id r.transaction_id)

unfoldable pub replace_broadcast : BroadcastRow → Db → Option Db
replace_broadcast r db =
    let kept = delete_rows (is_replaced_by r) db.k_broadcasts in
    if any (same_broadcast_id r) db.k_broadcasts
    then some (record db { k_broadcasts = kept })
    else some (record db { k_broadcasts = r ∷ kept })

unfoldable pub insert_block : BlockRow → Db → Option Db
insert_block r db =
    if not (text_eq r.blocking_action (codes "block"))
    then none
    else if any (same_blocked_user r) db.k_blocks
    then some db
    else if any (same_block r) db.k_blocks
    then none
    else some (record db { k_blocks = r ∷ db.k_blocks })

-- `… WHERE sender_pubkey = $1 AND blocked_user_pubkey = $2 AND blocking_action = 'block'`.
abbrev pub is_block_of : Bytes → Bytes → BlockRow → Bool
is_block_of sender blocked r =
    text_eq r.sender_pubkey sender
    && text_eq r.blocked_user_pubkey blocked
    && text_eq r.blocking_action (codes "block")

unfoldable pub delete_block : Bytes → Bytes → Db → Option Db
delete_block sender blocked db =
    some (record db { k_blocks = delete_rows (is_block_of sender blocked) db.k_blocks })

unfoldable pub insert_follow : FollowRow → Db → Option Db
insert_follow r db =
    if not (text_eq r.following_action (codes "follow"))
    then none
    else if any (same_followed_user r) db.k_follows
    then some db
    else if any (same_follow r) db.k_follows
    then none
    else some (record db { k_follows = r ∷ db.k_follows })

abbrev pub is_follow_of : Bytes → Bytes → FollowRow → Bool
is_follow_of sender followed r =
    text_eq r.sender_pubkey sender
    && text_eq r.followed_user_pubkey followed
    && text_eq r.following_action (codes "follow")

unfoldable pub delete_follow : Bytes → Bytes → Db → Option Db
delete_follow sender followed db =
    some (record db { k_follows = delete_rows (is_follow_of sender followed) db.k_follows })
