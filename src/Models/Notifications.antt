-- ===== src/Models/Notifications.antt =====
-- The conversions of mentions: `NotificationPost` in K-webserver/src/models.rs, and the match in
-- `get_notifications_paginated` of K-webserver/src/api_handlers.rs.
use k_indexer.Prelude.{ℕ, ℤ, Option, none, some, [], if◌then◌else◌}
use k_indexer.Text.{Text, codes}
use k_indexer.Protocol.Messages.{unwrap_or}
use k_indexer.Cursor.{create_compound_cursor}
use k_indexer.Models.{
  KPostRecord, KReplyRecord, KVoteRecord, post, reply, vote, NotificationContentRecord,
  NotificationPost,
}
use k_indexer.Models.Posts.{is_some}

unfoldable pub from_k_post_record_with_mention_cursor : KPostRecord → ℤ → ℕ → NotificationPost
unfolding create_compound_cursor
from_k_post_record_with_mention_cursor r mention_id mention_block_time = record {
  id = r.transaction_id;
  user_public_key = r.sender_pubkey;
  post_content = r.base64_encoded_message;
  timestamp = mention_block_time;
  user_nickname = r.user_nickname;
  user_profile_image = r.user_profile_image;
  content_type = if is_some r.referenced_content_id then codes "quote" else codes "post";
  cursor = create_compound_cursor mention_block_time mention_id;
  vote_type = none;
  mention_block_time = none;
  content_id = none;
  post_id = none;
  voted_content = none;
}

unfoldable pub from_k_reply_record_with_mention_cursor : KReplyRecord → ℤ → ℕ → NotificationPost
unfolding create_compound_cursor
from_k_reply_record_with_mention_cursor r mention_id mention_block_time = record {
  id = r.transaction_id;
  user_public_key = r.sender_pubkey;
  post_content = r.base64_encoded_message;
  timestamp = mention_block_time;
  user_nickname = r.user_nickname;
  user_profile_image = r.user_profile_image;
  content_type = codes "reply";
  cursor = create_compound_cursor mention_block_time mention_id;
  vote_type = none;
  mention_block_time = none;
  content_id = none;
  post_id = none;
  voted_content = none;
}

unfoldable pub from_k_vote_record_with_mention_cursor :
    KVoteRecord
    → ℤ
    → ℕ
    → (voted_content : Text) (user_nickname user_profile_image : Option Text) → NotificationPost
unfolding create_compound_cursor
from_k_vote_record_with_mention_cursor r mention_id mention_block_time voted_content user_nickname
      user_profile_image =
    record {
      id = r.transaction_id;
      user_public_key = r.sender_pubkey;
      post_content = [];
      timestamp = mention_block_time;
      user_nickname = user_nickname;
      user_profile_image = user_profile_image;
      content_type = codes "vote";
      cursor = create_compound_cursor mention_block_time mention_id;
      vote_type = some r.vote;
      mention_block_time = some mention_block_time;
      content_id = some r.post_id;
      post_id = none;
      voted_content = some voted_content;
    }

unfoldable pub notification_post : NotificationContentRecord → NotificationPost
unfolding from_k_post_record_with_mention_cursor from_k_reply_record_with_mention_cursor
    from_k_vote_record_with_mention_cursor
notification_post n = elim n.content [
  | post r ↦ from_k_post_record_with_mention_cursor r n.mention_id n.mention_block_time
  | reply r ↦ from_k_reply_record_with_mention_cursor r n.mention_id n.mention_block_time
  | vote r ↦
      from_k_vote_record_with_mention_cursor r n.mention_id n.mention_block_time
        (unwrap_or [] r.voted_content) r.user_nickname r.user_profile_image
]
