-- ===== src/Routes/Lists.antt =====
-- The routes of K-webserver/src/web_server.rs that answer with posts, replies or notifications, behind
-- the rate limit.
use k_indexer.Prelude.{ℕ, Option, none, some, [], ◌∷◌, if◌then◌else◌, ltb}
use k_indexer.Text.{Text, codes, is_empty, byte_len}
use k_indexer.Protocol.Messages.{unwrap_or}
use k_indexer.Models.{
  PaginatedPostsResponse, PaginatedRepliesResponse, PaginatedNotificationsResponse,
  PostDetailsResponse,
}
use k_indexer.Api.{ok, ◌>>=◌}
use k_indexer.Api.Posts.{
  get_posts_paginated, get_posts_watching_paginated, get_content_following_paginated,
  get_hashtag_content_paginated, get_replies_paginated, get_user_replies_paginated,
  get_mentions_paginated, get_notifications_paginated,
}
use k_indexer.Api.Details.{get_post_details}
use k_indexer.Routes.{Response, AppState, bad, required, valid_limit, required_limit, respond}
use k_indexer.Routes.Queries.{
  GetPostsQuery, GetRepliesQuery, GetPostsWatchingQuery, GetContentsFollowingQuery,
  GetMentionsQuery, GetNotificationsQuery, GetHashtagContentQuery, GetPostDetailsQuery,
}

-- A hashtag has a byte at least and thirty at most.
unfoldable pub valid_hashtag : Text → Response Text
unfolding bad
valid_hashtag hashtag =
    if is_empty hashtag
    then bad (codes "Hashtag parameter cannot be empty") (codes "INVALID_PARAMETER")
    else if ltb 30 (byte_len hashtag)
    then bad (codes "Hashtag parameter cannot exceed 30 characters") (codes "INVALID_PARAMETER")
    else ok hashtag

module _ (app : AppState) where
  unfoldable pub handle_get_posts : GetPostsQuery → Response PaginatedPostsResponse
  unfolding required required_limit get_posts_paginated respond
  handle_get_posts params = do
    user_public_key ← required (codes "user") params.user
    requester_pubkey ← required (codes "requesterPubkey") params.requester_pubkey
    limit ← required_limit params.limit
    respond app.serde app.serde.posts
        (codes "MISSING_PARAMETER" ∷ codes "INVALID_USER_KEY" ∷ codes "INVALID_LIMIT" ∷ []) []
        (get_posts_paginated app.db app.serde user_public_key requester_pubkey limit params.before
          params.after)

  unfoldable pub handle_get_mentions : GetMentionsQuery → Response PaginatedPostsResponse
  unfolding required required_limit get_mentions_paginated respond
  handle_get_mentions params = do
    user_public_key ← required (codes "user") params.user
    requester_pubkey ← required (codes "requesterPubkey") params.requester_pubkey
    limit ← required_limit params.limit
    respond app.serde app.serde.posts
        (codes "MISSING_PARAMETER" ∷ codes "INVALID_USER_KEY" ∷ codes "INVALID_LIMIT" ∷ []) []
        (get_mentions_paginated app.db app.serde user_public_key requester_pubkey limit
          params.before params.after)

  unfoldable pub handle_get_notifications :
      GetNotificationsQuery → Response PaginatedNotificationsResponse
  unfolding required required_limit get_notifications_paginated respond
  handle_get_notifications params = do
    requester_pubkey ← required (codes "requesterPubkey") params.requester_pubkey
    limit ← required_limit params.limit
    respond app.serde app.serde.notifications
        (codes "MISSING_PARAMETER" ∷ codes "INVALID_USER_KEY" ∷ codes "INVALID_LIMIT" ∷ []) []
        (get_notifications_paginated app.db app.serde requester_pubkey limit params.before
          params.after)

  unfoldable pub handle_get_hashtag_content :
      GetHashtagContentQuery → Response PaginatedPostsResponse
  unfolding required valid_hashtag valid_limit get_hashtag_content_paginated respond
  handle_get_hashtag_content params = do
    tag ← required (codes "hashtag") params.hashtag
    hashtag ← valid_hashtag (app.to_lowercase tag)
    limit ← valid_limit (unwrap_or 20 params.limit)
    requester_pubkey ← required (codes "requesterPubkey") params.requester_pubkey
    respond app.serde app.serde.posts
        (codes "MISSING_PARAMETER" ∷ codes "INVALID_PARAMETER" ∷ codes "INVALID_LIMIT" ∷ [])
        (codes "NOT_FOUND" ∷ [])
        (get_hashtag_content_paginated app.db app.serde hashtag requester_pubkey limit params.before
          params.after)

  unfoldable pub handle_get_posts_watching : GetPostsWatchingQuery → Response PaginatedPostsResponse
  unfolding required required_limit get_posts_watching_paginated respond
  handle_get_posts_watching params = do
    requester_pubkey ← required (codes "requesterPubkey") params.requester_pubkey
    limit ← required_limit params.limit
    respond app.serde app.serde.posts
        (codes "MISSING_PARAMETER" ∷ codes "INVALID_USER_KEY" ∷ codes "INVALID_LIMIT" ∷ []) []
        (get_posts_watching_paginated app.db app.serde requester_pubkey limit params.before
          params.after)

  unfoldable pub handle_get_contents_following :
      GetContentsFollowingQuery → Response PaginatedPostsResponse
  unfolding required required_limit get_content_following_paginated respond
  handle_get_contents_following params = do
    requester_pubkey ← required (codes "requesterPubkey") params.requester_pubkey
    limit ← required_limit params.limit
    respond app.serde app.serde.posts
        (codes "MISSING_PARAMETER" ∷ codes "INVALID_USER_KEY" ∷ codes "INVALID_LIMIT" ∷ []) []
        (get_content_following_paginated app.db app.serde requester_pubkey limit params.before
          params.after)

  unfoldable pub handle_get_post_details : GetPostDetailsQuery → Response PostDetailsResponse
  unfolding required get_post_details respond
  handle_get_post_details params = do
    post_id ← required (codes "id") params.id
    requester_pubkey ← required (codes "requesterPubkey") params.requester_pubkey
    respond app.serde app.serde.post_details
        (codes "MISSING_PARAMETER" ∷ codes "INVALID_POST_ID" ∷ []) (codes "NOT_FOUND" ∷ [])
        (get_post_details app.db app.serde post_id requester_pubkey)

  -- Exactly one of the two parameters says whose replies, or to what.
  unfoldable pub replies_mode :
      (post user : Option Text)
      → (requester_pubkey : Text) (limit : ℕ) (before after : Option Text)
      → Response PaginatedRepliesResponse
  unfolding bad get_replies_paginated get_user_replies_paginated respond
  replies_mode (some post_id) none requester_pubkey limit before after =
      respond app.serde app.serde.replies
        (codes "MISSING_PARAMETER"
          ∷ codes "INVALID_POST_ID"
          ∷ codes "INVALID_USER_KEY"
          ∷ codes "INVALID_LIMIT"
          ∷ [])
        [] (get_replies_paginated app.db app.serde post_id requester_pubkey limit before after)
  replies_mode none (some user_public_key) requester_pubkey limit before after =
      respond app.serde app.serde.replies
        (codes "MISSING_PARAMETER" ∷ codes "INVALID_USER_KEY" ∷ codes "INVALID_LIMIT" ∷ []) []
        (get_user_replies_paginated app.db app.serde user_public_key requester_pubkey limit before
          after)
  replies_mode (some _) (some _) requester_pubkey limit before after =
      bad
        (codes
          "Cannot provide both 'post' and 'user' parameters. Use 'post' for post replies or 'user' for user replies.")
        (codes "INVALID_PARAMETERS")
  replies_mode none none requester_pubkey limit before after =
      bad (codes "Missing required parameter: either 'post' or 'user' must be provided")
        (codes "MISSING_PARAMETER")

  unfoldable pub handle_get_replies : GetRepliesQuery → Response PaginatedRepliesResponse
  unfolding required required_limit replies_mode
  handle_get_replies params = do
    requester_pubkey ← required (codes "requesterPubkey") params.requester_pubkey
    limit ← required_limit params.limit
    replies_mode params.post params.user requester_pubkey limit params.before params.after
