-- ===== src/Routes/Calls.antt =====
-- The router of K-webserver/src/web_server.rs: a call is a path with its parameters, and each path has
-- its route, behind the rate limit. The root, whose answer is fixed, and the metrics of Prometheus are
-- left out; they have no rate limit.
use k_indexer.Prelude.{ℕ}
use k_indexer.Models.{
  PaginatedPostsResponse, PaginatedRepliesResponse, PaginatedUsersResponse,
  PaginatedNotificationsResponse, PostDetailsResponse, ServerUserPost, TrendingHashtagsResponse,
}
use k_indexer.Api.{CountResponse, DatabaseStats}
use k_indexer.RateLimit.{SocketAddr, RateLimitMap}
use k_indexer.Routes.{Response, AppState, rate_limited}
use k_indexer.Routes.Queries.{
  GetBlockedUsersQuery, GetContentsFollowingQuery, GetFollowedUsersQuery, GetHashtagContentQuery,
  GetMentionsQuery, GetMostActiveUsersQuery, GetNotificationsCountQuery, GetNotificationsQuery,
  GetPostDetailsQuery, GetPostsQuery, GetPostsWatchingQuery, GetRepliesQuery,
  GetTrendingHashtagsQuery, GetUserDetailsQuery, GetUsersFollowersQuery, GetUsersFollowingQuery,
  GetUsersQuery, SearchUsersQuery,
}
use k_indexer.Routes.Lists.{
  handle_get_contents_following, handle_get_hashtag_content, handle_get_mentions,
  handle_get_notifications, handle_get_post_details, handle_get_posts, handle_get_posts_watching,
  handle_get_replies,
}
use k_indexer.Routes.People.{
  HealthResponse, handle_health, handle_stats, handle_get_users, handle_get_most_active_users,
  handle_get_users_count, handle_search_users, handle_get_user_details, handle_get_followed_users,
  handle_get_users_following, handle_get_users_followers, handle_get_blocked_users,
  handle_get_notifications_count, handle_get_trending_hashtags,
}

pub data Call : Type 0 where
  health : Call
  stats : Call
  get_posts : GetPostsQuery → Call
  get_post_details : GetPostDetailsQuery → Call
  get_posts_watching : GetPostsWatchingQuery → Call
  get_contents_following : GetContentsFollowingQuery → Call
  get_replies : GetRepliesQuery → Call
  get_mentions : GetMentionsQuery → Call
  get_users : GetUsersQuery → Call
  get_most_active_users : GetMostActiveUsersQuery → Call
  get_users_count : Call
  search_users : SearchUsersQuery → Call
  get_user_details : GetUserDetailsQuery → Call
  get_followed_users : GetFollowedUsersQuery → Call
  get_users_following : GetUsersFollowingQuery → Call
  get_users_followers : GetUsersFollowersQuery → Call
  get_blocked_users : GetBlockedUsersQuery → Call
  get_notifications_count : GetNotificationsCountQuery → Call
  get_notifications : GetNotificationsQuery → Call
  get_hashtag_content : GetHashtagContentQuery → Call
  get_trending_hashtags : GetTrendingHashtagsQuery → Call

-- What the route of a call answers with.
abbrev pub Answer : Call → Type 0
Answer Call.health = HealthResponse
Answer Call.stats = DatabaseStats
Answer (Call.get_posts _) = PaginatedPostsResponse
Answer (Call.get_post_details _) = PostDetailsResponse
Answer (Call.get_posts_watching _) = PaginatedPostsResponse
Answer (Call.get_contents_following _) = PaginatedPostsResponse
Answer (Call.get_replies _) = PaginatedRepliesResponse
Answer (Call.get_mentions _) = PaginatedPostsResponse
Answer (Call.get_users _) = PaginatedUsersResponse
Answer (Call.get_most_active_users _) = PaginatedUsersResponse
Answer Call.get_users_count = CountResponse
Answer (Call.search_users _) = PaginatedUsersResponse
Answer (Call.get_user_details _) = ServerUserPost
Answer (Call.get_followed_users _) = PaginatedUsersResponse
Answer (Call.get_users_following _) = PaginatedUsersResponse
Answer (Call.get_users_followers _) = PaginatedUsersResponse
Answer (Call.get_blocked_users _) = PaginatedUsersResponse
Answer (Call.get_notifications_count _) = CountResponse
Answer (Call.get_notifications _) = PaginatedNotificationsResponse
Answer (Call.get_hashtag_content _) = PaginatedPostsResponse
Answer (Call.get_trending_hashtags _) = TrendingHashtagsResponse

unfoldable pub answer : AppState → (c : Call) → Response (Answer c)
answer app Call.health = handle_health app
answer app Call.stats = handle_stats app
answer app (Call.get_posts params) = handle_get_posts app params
answer app (Call.get_post_details params) = handle_get_post_details app params
answer app (Call.get_posts_watching params) = handle_get_posts_watching app params
answer app (Call.get_contents_following params) = handle_get_contents_following app params
answer app (Call.get_replies params) = handle_get_replies app params
answer app (Call.get_mentions params) = handle_get_mentions app params
answer app (Call.get_users params) = handle_get_users app params
answer app (Call.get_most_active_users params) = handle_get_most_active_users app params
answer app Call.get_users_count = handle_get_users_count app
answer app (Call.search_users params) = handle_search_users app params
answer app (Call.get_user_details params) = handle_get_user_details app params
answer app (Call.get_followed_users params) = handle_get_followed_users app params
answer app (Call.get_users_following params) = handle_get_users_following app params
answer app (Call.get_users_followers params) = handle_get_users_followers app params
answer app (Call.get_blocked_users params) = handle_get_blocked_users app params
answer app (Call.get_notifications_count params) = handle_get_notifications_count app params
answer app (Call.get_notifications params) = handle_get_notifications app params
answer app (Call.get_hashtag_content params) = handle_get_hashtag_content app params
answer app (Call.get_trending_hashtags params) = handle_get_trending_hashtags app params

-- A request of a client, at an instant of the monotonic clock.
unfoldable pub serve :
    AppState
    → (instant : ℕ) → SocketAddr
    → RateLimitMap
    → (c : Call) → Response (Answer c) × RateLimitMap
unfolding answer rate_limited
serve app instant client_addr m c = rate_limited app.rate_limit instant client_addr m (answer app c)
