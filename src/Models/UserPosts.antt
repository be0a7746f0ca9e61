-- ===== src/Models/UserPosts.antt =====
-- The conversions of a broadcast: `ServerUserPost` in K-webserver/src/models.rs.
use k_indexer.Prelude.{Bool, none, some, if◌then◌else◌}
use k_indexer.Models.{KBroadcastRecord, ServerUserPost, masked_content}

unfoldable pub from_k_broadcast_record : KBroadcastRecord → ServerUserPost
from_k_broadcast_record r = record {
  id = r.transaction_id;
  user_public_key = r.sender_pubkey;
  post_content = r.base64_encoded_message;
  signature = r.sender_signature;
  timestamp = r.block_time;
  user_nickname = some r.base64_encoded_nickname;
  user_profile_image = r.base64_encoded_profile_image;
  blocked_user = none;
  followed_user = none;
  followers_count = none;
  following_count = none;
  blocked_count = none;
  contents_count = none;
}

unfoldable pub from_k_broadcast_record_with_block_status : KBroadcastRecord → Bool → ServerUserPost
from_k_broadcast_record_with_block_status r is_blocked = record {
  id = r.transaction_id;
  user_public_key = r.sender_pubkey;
  post_content = if is_blocked then masked_content else r.base64_encoded_message;
  signature = r.sender_signature;
  timestamp = r.block_time;
  user_nickname = some r.base64_encoded_nickname;
  user_profile_image = r.base64_encoded_profile_image;
  blocked_user = some is_blocked;
  followed_user = none;
  followers_count = none;
  following_count = none;
  blocked_count = none;
  contents_count = none;
}

unfoldable pub from_k_broadcast_record_with_block_and_follow_status :
    KBroadcastRecord → (is_blocked is_followed : Bool) → ServerUserPost
from_k_broadcast_record_with_block_and_follow_status r is_blocked is_followed = record {
  id = r.transaction_id;
  user_public_key = r.sender_pubkey;
  post_content = if is_blocked then masked_content else r.base64_encoded_message;
  signature = r.sender_signature;
  timestamp = r.block_time;
  user_nickname = some r.base64_encoded_nickname;
  user_profile_image = r.base64_encoded_profile_image;
  blocked_user = some is_blocked;
  followed_user = some is_followed;
  followers_count = none;
  following_count = none;
  blocked_count = none;
  contents_count = none;
}
