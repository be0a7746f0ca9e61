-- ===== src/Routes/People.antt =====
-- The routes of K-webserver/src/web_server.rs that answer with users, counts, hashtags or the state of
-- the server, behind the rate limit.
use k_indexer.Prelude.{[], ◌∷◌}
use k_indexer.Text.{Text, codes}
use k_indexer.Protocol.Messages.{unwrap_or}
use k_indexer.Models.{PaginatedUsersResponse, ServerUserPost, TrendingHashtagsResponse}
use k_indexer.Api.{ok, err, ◌>>=◌, CountResponse, DatabaseStats}
use k_indexer.Api.Users.{
  get_users_paginated, get_most_active_users_paginated, search_users_paginated,
  get_blocked_users_paginated, get_followed_users_paginated, get_users_following_paginated,
  get_users_followers_paginated,
}
use k_indexer.Api.Details.{
  get_user_details, get_notification_count, get_users_count, get_trending_hashtags,
}
use k_indexer.Routes.{
  StatusCode, Response, AppState, api_error, required, valid_limit, required_limit, valid_window,
  respond,
}
use k_indexer.Routes.Queries.{
  GetUsersQuery, GetMostActiveUsersQuery, SearchUsersQuery, GetTrendingHashtagsQuery,
  GetUserDetailsQuery, GetBlockedUsersQuery, GetFollowedUsersQuery, GetUsersFollowingQuery,
  GetUsersFollowersQuery, GetNotificationsCountQuery,
}

-- What the health check says of the database; the rest of its answer is fixed.
pub record HealthResponse : Type 0 where
  pub network : Text

module _ (app : AppState) where
  unfoldable pub handle_health : Response HealthResponse
  handle_health = elim app.db.get_network [
    | ok network ↦ ok (record { network = network })
    | err _ ↦ ok (record { network = codes "unknown" })
  ]

  -- The JSON of the answer has a field for each of the counts.
  unfoldable pub handle_stats : Response DatabaseStats
  unfolding api_error
  handle_stats = elim app.db.get_stats [
    | ok stats ↦ ok stats
    | err _ ↦ err (
      StatusCode.internal_server_error,
      api_error (codes "Failed to retrieve database statistics") (codes "INTERNAL_ERROR"),
    )
  ]

  unfoldable pub handle_get_users : GetUsersQuery → Response PaginatedUsersResponse
  unfolding required required_limit get_users_paginated respond
  handle_get_users params = do
    limit ← required_limit params.limit
    requester_pubkey ← required (codes "requesterPubkey") params.requester_pubkey
    respond app.serde app.serde.users (codes "MISSING_PARAMETER" ∷ codes "INVALID_LIMIT" ∷ []) []
        (get_users_paginated app.db app.serde limit requester_pubkey params.before params.after)

  unfoldable pub handle_get_most_active_users :
      GetMostActiveUsersQuery → Response PaginatedUsersResponse
  unfolding required required_limit valid_window get_most_active_users_paginated respond
  handle_get_most_active_users params = do
    tw ← required (codes "timeWindow") params.time_window
    time_window ← valid_window tw
    limit ← required_limit params.limit
    requester_pubkey ← required (codes "requesterPubkey") params.requester_pubkey
    respond app.serde app.serde.users
        (codes "MISSING_PARAMETER" ∷ codes "INVALID_LIMIT" ∷ codes "INVALID_PARAMETER" ∷ []) []
        (get_most_active_users_paginated app.db app.serde app.now limit requester_pubkey time_window
          params.before params.after)

  unfoldable pub handle_search_users : SearchUsersQuery → Response PaginatedUsersResponse
  unfolding required required_limit search_users_paginated respond
  handle_search_users params = do
    limit ← required_limit params.limit
    requester_pubkey ← required (codes "requesterPubkey") params.requester_pubkey
    respond app.serde app.serde.users
        (codes "MISSING_PARAMETER" ∷ codes "INVALID_LIMIT" ∷ codes "INVALID_USER_KEY" ∷ []) []
        (search_users_paginated app.db app.serde limit requester_pubkey params.before params.after
          params.searched_user_pubkey params.searched_user_nickname)

  unfoldable pub handle_get_user_details : GetUserDetailsQuery → Response ServerUserPost
  unfolding required get_user_details respond
  handle_get_user_details params = do
    user_public_key ← required (codes "user") params.user
    requester_pubkey ← required (codes "requesterPubkey") params.requester_pubkey
    respond app.serde app.serde.user_post
        (codes "MISSING_PARAMETER" ∷ codes "INVALID_USER_KEY" ∷ []) (codes "USER_NOT_FOUND" ∷ [])
        (get_user_details app.db app.serde user_public_key requester_pubkey)

  unfoldable pub handle_get_blocked_users : GetBlockedUsersQuery → Response PaginatedUsersResponse
  unfolding required required_limit get_blocked_users_paginated respond
  handle_get_blocked_users params = do
    requester_pubkey ← required (codes "requesterPubkey") params.requester_pubkey
    limit ← required_limit params.limit
    respond app.serde app.serde.users
        (codes "MISSING_PARAMETER" ∷ codes "INVALID_USER_KEY" ∷ codes "INVALID_LIMIT" ∷ []) []
        (get_blocked_users_paginated app.db app.serde requester_pubkey limit params.before
          params.after)

  unfoldable pub handle_get_followed_users : GetFollowedUsersQuery → Response PaginatedUsersResponse
  unfolding required required_limit get_followed_users_paginated respond
  handle_get_followed_users params = do
    requester_pubkey ← required (codes "requesterPubkey") params.requester_pubkey
    limit ← required_limit params.limit
    respond app.serde app.serde.users
        (codes "MISSING_PARAMETER" ∷ codes "INVALID_USER_KEY" ∷ codes "INVALID_LIMIT" ∷ []) []
        (get_followed_users_paginated app.db app.serde requester_pubkey limit params.before
          params.after)

  unfoldable pub handle_get_users_following :
      GetUsersFollowingQuery → Response PaginatedUsersResponse
  unfolding required required_limit get_users_following_paginated respond
  handle_get_users_following params = do
    requester_pubkey ← required (codes "requesterPubkey") params.requester_pubkey
    user_pubkey ← required (codes "userPubkey") params.user_pubkey
    limit ← required_limit params.limit
    respond app.serde app.serde.users
        (codes "MISSING_PARAMETER" ∷ codes "INVALID_USER_KEY" ∷ codes "INVALID_LIMIT" ∷ []) []
        (get_users_following_paginated app.db app.serde requester_pubkey user_pubkey limit
          params.before params.after)

  unfoldable pub handle_get_users_followers :
      GetUsersFollowersQuery → Response PaginatedUsersResponse
  unfolding required required_limit get_users_followers_paginated respond
  handle_get_users_followers params = do
    requester_pubkey ← required (codes "requesterPubkey") params.requester_pubkey
    user_pubkey ← required (codes "userPubkey") params.user_pubkey
    limit ← required_limit params.limit
    respond app.serde app.serde.users
        (codes "MISSING_PARAMETER" ∷ codes "INVALID_USER_KEY" ∷ codes "INVALID_LIMIT" ∷ []) []
        (get_users_followers_paginated app.db app.serde requester_pubkey user_pubkey limit
          params.before params.after)

  unfoldable pub handle_get_notifications_count :
      GetNotificationsCountQuery → Response CountResponse
  unfolding required get_notification_count respond
  handle_get_notifications_count params = do
    requester_pubkey ← required (codes "requesterPubkey") params.requester_pubkey
    respond app.serde app.serde.count (codes "MISSING_PARAMETER" ∷ codes "INVALID_USER_KEY" ∷ []) []
        (get_notification_count app.db app.serde requester_pubkey params.after)

  unfoldable pub handle_get_users_count : Response CountResponse
  unfolding get_users_count respond
  handle_get_users_count =
      respond app.serde app.serde.count [] [] (get_users_count app.db app.serde)

  unfoldable pub handle_get_trending_hashtags :
      GetTrendingHashtagsQuery → Response TrendingHashtagsResponse
  unfolding valid_limit valid_window get_trending_hashtags respond
  handle_get_trending_hashtags params = do
    time_window ← valid_window (unwrap_or (codes "24h") params.time_window)
    limit ← valid_limit (unwrap_or 20 params.limit)
    respond app.serde app.serde.trending (codes "INVALID_PARAMETER" ∷ codes "INVALID_LIMIT" ∷ []) []
        (get_trending_hashtags app.db app.serde app.now time_window limit)
