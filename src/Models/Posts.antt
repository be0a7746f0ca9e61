-- ===== src/Models/Posts.antt =====
-- The conversions of posts, quotes, replies and votes: `ServerPost` in K-webserver/src/models.rs, and
-- how K-webserver/src/api_handlers.rs shows a vote as one.
use k_indexer.Prelude.{Bool, true, false, Option, none, some, [], if◌then◌else◌}
use k_indexer.Text.{codes}
use k_indexer.Protocol.Messages.{unwrap_or}
use k_indexer.Models.{
  KPostRecord, KReplyRecord, KVoteRecord, ContentRecord, post, reply, vote, QuoteData, ServerPost,
  masked_content,
}

-- Three fields make a quote.
unfoldable pub quote_data : KPostRecord → Option QuoteData
quote_data r = elim r.referenced_content_id [
  | none ↦ none
  | some ref_id ↦ elim r.referenced_message [
    | none ↦ none
    | some ref_msg ↦ elim r.referenced_sender_pubkey [
      | none ↦ none
      | some ref_pubkey ↦ some (record {
        referenced_content_id = ref_id;
        referenced_message = ref_msg;
        referenced_sender_pubkey = ref_pubkey;
        referenced_nickname = r.referenced_nickname;
        referenced_profile_image = r.referenced_profile_image;
      })
    ]
  ]
]

abbrev pub is_some {ℓ} : {A : Type ℓ} → Option A → Bool
is_some none = false
is_some (some _) = true

unfoldable pub from_enriched_k_post_record_with_block_status : KPostRecord → Bool → ServerPost
unfolding quote_data
from_enriched_k_post_record_with_block_status r is_blocked = record {
  id = r.transaction_id;
  user_public_key = r.sender_pubkey;
  post_content = if is_blocked then masked_content else r.base64_encoded_message;
  signature = r.sender_signature;
  timestamp = r.block_time;
  replies_count = unwrap_or 0 r.replies_count;
  up_votes_count = unwrap_or 0 r.up_votes_count;
  down_votes_count = unwrap_or 0 r.down_votes_count;
  quotes_count = unwrap_or 0 r.quotes_count;
  reposts_count = 0;
  parent_post_id = none;
  mentioned_pubkeys = r.mentioned_pubkeys;
  is_upvoted = r.is_upvoted;
  is_downvoted = r.is_downvoted;
  user_nickname = r.user_nickname;
  user_profile_image = r.user_profile_image;
  blocked_user = some is_blocked;
  content_type = r.content_type;
  is_quote = is_some (quote_data r);
  quote = quote_data r;
}

unfoldable pub from_enriched_k_reply_record_with_block_status : KReplyRecord → Bool → ServerPost
from_enriched_k_reply_record_with_block_status r is_blocked = record {
  id = r.transaction_id;
  user_public_key = r.sender_pubkey;
  post_content = if is_blocked then masked_content else r.base64_encoded_message;
  signature = r.sender_signature;
  timestamp = r.block_time;
  replies_count = unwrap_or 0 r.replies_count;
  up_votes_count = unwrap_or 0 r.up_votes_count;
  down_votes_count = unwrap_or 0 r.down_votes_count;
  quotes_count = unwrap_or 0 r.quotes_count;
  reposts_count = 0;
  parent_post_id = some r.post_id;
  mentioned_pubkeys = r.mentioned_pubkeys;
  is_upvoted = r.is_upvoted;
  is_downvoted = r.is_downvoted;
  user_nickname = r.user_nickname;
  user_profile_image = r.user_profile_image;
  blocked_user = some is_blocked;
  content_type = r.content_type;
  is_quote = false;
  quote = none;
}

-- Votes have no content.
unfoldable pub server_vote : KVoteRecord → Bool → ServerPost
server_vote r is_blocked = record {
  id = r.transaction_id;
  user_public_key = r.sender_pubkey;
  post_content = [];
  signature = r.sender_signature;
  timestamp = r.block_time;
  replies_count = 0;
  up_votes_count = 0;
  down_votes_count = 0;
  quotes_count = 0;
  reposts_count = 0;
  parent_post_id = some r.post_id;
  mentioned_pubkeys = [];
  is_upvoted = none;
  is_downvoted = none;
  user_nickname = r.user_nickname;
  user_profile_image = r.user_profile_image;
  blocked_user = some is_blocked;
  content_type = some (codes "vote");
  is_quote = false;
  quote = none;
}

-- The match on a content record, of the mentions and of the details alike.
unfoldable pub server_content : ContentRecord → Bool → ServerPost
unfolding from_enriched_k_post_record_with_block_status
    from_enriched_k_reply_record_with_block_status server_vote
server_content (post r) is_blocked = from_enriched_k_post_record_with_block_status r is_blocked
server_content (reply r) is_blocked = from_enriched_k_reply_record_with_block_status r is_blocked
server_content (vote r) is_blocked = server_vote r is_blocked
