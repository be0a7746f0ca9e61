-- ===== src/Api/Details.antt =====
-- The handlers of K-webserver/src/api_handlers.rs that answer with one content, one user, a count or
-- the trending hashtags.
use k_indexer.Prelude.{
  ℕ, ℤ, pos, ◌+◌, ◌-◌, ◌/◌, ◌%◌, ◌^◌, Bool, false, ◌&&◌, Option, none, some, List, [], ◌∷◌,
  if◌then◌else◌,
}
use k_indexer.Text.{Text, codes, is_empty}
use k_indexer.Page.{eq_ℤ}
use k_indexer.Models.{KBroadcastRecord, ContentRecord, ServerUserPost, TrendingHashtag}
use k_indexer.Models.UserPosts.{from_k_broadcast_record_with_block_and_follow_status}
use k_indexer.Models.Posts.{server_content}
use k_indexer.Api.{
  Result, err, ◌>>=◌, ◌>>◌, DatabaseInterface, Serde, create_error_response, require_public_key,
  require_id, queried, serialized,
}
use k_indexer.Api.Users.{require_window, enriched}

-- A user without a broadcast.
unfoldable pub bare_user :
    (user_public_key : Text) (blocked followed : Bool)
    (followers_count following_count blocked_count : ℤ)
    → ServerUserPost
bare_user user_public_key blocked followed followers_count following_count blocked_count = record {
  id = [];
  user_public_key = user_public_key;
  post_content = [];
  signature = [];
  timestamp = 0;
  user_nickname = none;
  user_profile_image = none;
  blocked_user = some blocked;
  followed_user = some followed;
  followers_count = some followers_count;
  following_count = some following_count;
  blocked_count = some blocked_count;
  contents_count = none;
}

-- A record with the id zero and no transaction says that the user has no broadcast.
unfoldable pub is_minimal : KBroadcastRecord → Bool
unfolding eq_ℤ
is_minimal r = eq_ℤ r.id (pos 0) && is_empty r.transaction_id

unfoldable pub detailed_user :
    (user_public_key : Text) → Option (KBroadcastRecord × Bool × Bool × ℤ × ℤ × ℤ) → ServerUserPost
unfolding bare_user is_minimal from_k_broadcast_record_with_block_and_follow_status
detailed_user user_public_key none = bare_user user_public_key false false (pos 0) (pos 0) (pos 0)
detailed_user user_public_key
      (some (r, blocked, followed, followers_count, following_count, blocked_count)) =
    if is_minimal r
    then bare_user user_public_key blocked followed followers_count following_count blocked_count
    else record (enriched r
        (from_k_broadcast_record_with_block_and_follow_status r blocked followed)) {
          followers_count = some followers_count;
          following_count = some following_count;
          blocked_count = some blocked_count;
        }

-- The ranks from `index + 1`, on a `u32`.
unfoldable pub with_rank : (index : ℕ) → List (Text × ℕ) → List TrendingHashtag
with_rank index [] = []
with_rank index ((hashtag, usage_count) ∷ hashtags) =
    record { hashtag = hashtag; usage_count = usage_count; rank = (index + 1) % 2 ^ 32 }
    ∷ with_rank (index + 1) hashtags

unfoldable pub details_response : Serde → Option (ContentRecord × Bool) → Result Text Text
unfolding create_error_response server_content serialized
details_response serde none =
    err (create_error_response serde (codes "Content not found") (codes "NOT_FOUND"))
details_response serde (some (content_record, is_blocked)) =
    serialized serde serde.post_details (record { post = server_content content_record is_blocked })

module _ (db : DatabaseInterface) (serde : Serde) where
  unfoldable pub get_post_details : (content_id requester_pubkey : Text) → Result Text Text
  unfolding require_id require_public_key queried details_response
  get_post_details content_id requester_pubkey = do
    require_id serde (codes "content") content_id
    require_public_key serde (codes "requester") requester_pubkey
    content ← queried serde (db.get_content_by_id content_id requester_pubkey)
    details_response serde content

  unfoldable pub get_user_details : (user_public_key requester_pubkey : Text) → Result Text Text
  unfolding require_public_key queried detailed_user serialized
  get_user_details user_public_key requester_pubkey = do
    require_public_key serde (codes "user") user_public_key
    require_public_key serde (codes "requester") requester_pubkey
    broadcast_result ← queried serde (db.get_user_details user_public_key requester_pubkey)
    serialized serde serde.user_post (detailed_user user_public_key broadcast_result)

  unfoldable pub get_notification_count :
      (requester_pubkey : Text) (after : Option Text) → Result Text Text
  unfolding require_public_key queried serialized
  get_notification_count requester_pubkey after = do
    require_public_key serde (codes "requester") requester_pubkey
    count ← queried serde (db.get_notification_count requester_pubkey after)
    serialized serde serde.count (record { count = count })

  unfoldable pub get_users_count : Result Text Text
  unfolding queried serialized
  get_users_count = do
    count ← queried serde db.get_users_count
    serialized serde serde.count (record { count = count })

  unfoldable pub get_trending_hashtags :
      (now : ℕ) (time_window : Text) (limit : ℕ) → Result Text Text
  unfolding require_window queried with_rank serialized
  get_trending_hashtags now time_window limit = do
    millis ← require_window serde time_window
    trending_hashtags ← queried serde (db.get_trending_hashtags (now - millis) now limit)
    serialized serde serde.trending (record {
      time_window = time_window;
      from_time = (now - millis) / 1000;
      to_time = now / 1000;
      hashtags = with_rank 0 trending_hashtags;
    })
