-- ===== src/Api/Posts.antt =====
-- The handlers of K-webserver/src/api_handlers.rs that answer with posts, replies or notifications.
use k_indexer.Prelude.{ℕ, ◌+◌, ◌%◌, ◌^◌, false, Option, map}
use k_indexer.Text.{Text, codes}
use k_indexer.Page.{PaginatedResult}
use k_indexer.Models.{KPostRecord, KReplyRecord}
use k_indexer.Models.Posts.{
  from_enriched_k_post_record_with_block_status, from_enriched_k_reply_record_with_block_status,
  server_content,
}
use k_indexer.Models.Notifications.{notification_post}
use k_indexer.Api.{
  Result, ◌>>=◌, ◌>>◌, DatabaseInterface, Serde, require_public_key, require_id, query_options,
  queried, serialized,
}

-- `limit + 1` on a `u32`.
abbrev pub fetch_limit : ℕ → ℕ
fetch_limit limit = (limit + 1) % 2 ^ 32

-- What four of the handlers do with a page of posts; blocked users are not on it.
unfoldable pub posts_response : Serde → PaginatedResult KPostRecord → Result Text Text
unfolding from_enriched_k_post_record_with_block_status serialized
posts_response serde posts_result = serialized serde serde.posts (record {
  posts = map (λ r. from_enriched_k_post_record_with_block_status r false) posts_result.items;
  pagination = posts_result.pagination;
})

-- What two of the handlers do with a page of replies.
unfoldable pub replies_response : Serde → PaginatedResult KReplyRecord → Result Text Text
unfolding from_enriched_k_reply_record_with_block_status serialized
replies_response serde replies_result = serialized serde serde.replies (record {
  replies = map (λ r. from_enriched_k_reply_record_with_block_status r false) replies_result.items;
  pagination = replies_result.pagination;
})

module _ (db : DatabaseInterface) (serde : Serde) where
  unfoldable pub get_posts_paginated :
      (user_public_key requester_pubkey : Text) (limit : ℕ) (before after : Option Text)
      → Result Text Text
  unfolding require_public_key query_options queried posts_response
  get_posts_paginated user_public_key requester_pubkey limit before after = do
    require_public_key serde (codes "user") user_public_key
    require_public_key serde (codes "requester") requester_pubkey
    posts_result ←
        queried serde
          (db.get_posts_by_user user_public_key requester_pubkey (query_options limit before after))
    posts_response serde posts_result

  unfoldable pub get_posts_watching_paginated :
      (requester_pubkey : Text) (limit : ℕ) (before after : Option Text) → Result Text Text
  unfolding require_public_key query_options queried posts_response
  get_posts_watching_paginated requester_pubkey limit before after = do
    require_public_key serde (codes "requester") requester_pubkey
    posts_result ←
        queried serde (db.get_all_posts requester_pubkey (query_options limit before after))
    posts_response serde posts_result

  unfoldable pub get_content_following_paginated :
      (requester_pubkey : Text) (limit : ℕ) (before after : Option Text) → Result Text Text
  unfolding require_public_key query_options queried posts_response
  get_content_following_paginated requester_pubkey limit before after = do
    require_public_key serde (codes "requester") requester_pubkey
    content_result ←
        queried serde (db.get_content_following requester_pubkey (query_options limit before after))
    posts_response serde content_result

  unfoldable pub get_hashtag_content_paginated :
      (hashtag requester_pubkey : Text) (limit : ℕ) (before after : Option Text) → Result Text Text
  unfolding require_public_key query_options queried posts_response
  get_hashtag_content_paginated hashtag requester_pubkey limit before after = do
    require_public_key serde (codes "requester") requester_pubkey
    content_result ←
        queried serde
          (db.get_hashtag_content hashtag requester_pubkey (query_options limit before after))
    posts_response serde content_result

  unfoldable pub get_replies_paginated :
      (post_id requester_pubkey : Text) (limit : ℕ) (before after : Option Text) → Result Text Text
  unfolding require_id require_public_key query_options queried replies_response
  get_replies_paginated post_id requester_pubkey limit before after = do
    require_id serde (codes "post") post_id
    require_public_key serde (codes "requester") requester_pubkey
    replies_result ←
        queried serde
          (db.get_replies_by_post_id post_id requester_pubkey (query_options limit before after))
    replies_response serde replies_result

  unfoldable pub get_user_replies_paginated :
      (user_public_key requester_pubkey : Text) (limit : ℕ) (before after : Option Text)
      → Result Text Text
  unfolding require_public_key query_options queried replies_response
  get_user_replies_paginated user_public_key requester_pubkey limit before after = do
    require_public_key serde (codes "user") user_public_key
    require_public_key serde (codes "requester") requester_pubkey
    replies_result ←
        queried serde (
          db.get_replies_by_user user_public_key requester_pubkey
            (query_options limit before after))
    replies_response serde replies_result

  unfoldable pub get_mentions_paginated :
      (user_public_key requester_pubkey : Text) (limit : ℕ) (before after : Option Text)
      → Result Text Text
  unfolding require_public_key query_options queried server_content serialized
  get_mentions_paginated user_public_key requester_pubkey limit before after = do
    require_public_key serde (codes "user") user_public_key
    require_public_key serde (codes "requester") requester_pubkey
    mentions_result ← queried serde (
        db.get_contents_mentioning_user user_public_key requester_pubkey
          (query_options (fetch_limit limit) before after))
    serialized serde serde.posts (record {
      posts = map (λ r. server_content r false) mentions_result.items;
      pagination = mentions_result.pagination;
    })

  unfoldable pub get_notifications_paginated :
      (requester_pubkey : Text) (limit : ℕ) (before after : Option Text) → Result Text Text
  unfolding require_public_key query_options queried notification_post serialized
  get_notifications_paginated requester_pubkey limit before after = do
    require_public_key serde (codes "requester") requester_pubkey
    notifications_result ←
        queried serde
          (db.get_notifications requester_pubkey (query_options (fetch_limit limit) before after))
    serialized serde serde.notifications (record {
      notifications = map notification_post notifications_result.items;
      pagination = notifications_result.pagination;
    })
