-- ===== src/Routes/Queries.antt =====
-- The query parameters of the routes: the structs of K-webserver/src/web_server.rs that axum fills.
use k_indexer.Prelude.{ℕ, Option}
use k_indexer.Text.{Text}

pub record GetPostsQuery : Type 0 where
  pub user : Option Text
  pub requester_pubkey : Option Text
  pub limit : Option ℕ
  pub before : Option Text
  pub after : Option Text

pub record GetRepliesQuery : Type 0 where
  pub post : Option Text
  pub user : Option Text
  pub requester_pubkey : Option Text
  pub limit : Option ℕ
  pub before : Option Text
  pub after : Option Text

pub record GetPostsWatchingQuery : Type 0 where
  pub requester_pubkey : Option Text
  pub limit : Option ℕ
  pub before : Option Text
  pub after : Option Text

pub record GetContentsFollowingQuery : Type 0 where
  pub requester_pubkey : Option Text
  pub limit : Option ℕ
  pub before : Option Text
  pub after : Option Text

pub record GetUsersQuery : Type 0 where
  pub limit : Option ℕ
  pub before : Option Text
  pub after : Option Text
  pub requester_pubkey : Option Text

pub record GetMostActiveUsersQuery : Type 0 where
  pub limit : Option ℕ
  pub before : Option Text
  pub after : Option Text
  pub requester_pubkey : Option Text
  pub time_window : Option Text

pub record SearchUsersQuery : Type 0 where
  pub limit : Option ℕ
  pub before : Option Text
  pub after : Option Text
  pub requester_pubkey : Option Text
  pub searched_user_pubkey : Option Text
  pub searched_user_nickname : Option Text

pub record GetMentionsQuery : Type 0 where
  pub user : Option Text
  pub requester_pubkey : Option Text
  pub limit : Option ℕ
  pub before : Option Text
  pub after : Option Text

pub record GetNotificationsQuery : Type 0 where
  pub requester_pubkey : Option Text
  pub limit : Option ℕ
  pub before : Option Text
  pub after : Option Text

pub record GetHashtagContentQuery : Type 0 where
  pub hashtag : Option Text
  pub requester_pubkey : Option Text
  pub limit : Option ℕ
  pub before : Option Text
  pub after : Option Text

pub record GetTrendingHashtagsQuery : Type 0 where
  pub time_window : Option Text
  pub limit : Option ℕ

pub record GetPostDetailsQuery : Type 0 where
  pub id : Option Text
  pub requester_pubkey : Option Text

pub record GetUserDetailsQuery : Type 0 where
  pub user : Option Text
  pub requester_pubkey : Option Text

pub record GetBlockedUsersQuery : Type 0 where
  pub requester_pubkey : Option Text
  pub limit : Option ℕ
  pub before : Option Text
  pub after : Option Text

pub record GetFollowedUsersQuery : Type 0 where
  pub requester_pubkey : Option Text
  pub limit : Option ℕ
  pub before : Option Text
  pub after : Option Text

pub record GetUsersFollowingQuery : Type 0 where
  pub requester_pubkey : Option Text
  pub user_pubkey : Option Text
  pub limit : Option ℕ
  pub before : Option Text
  pub after : Option Text

pub record GetUsersFollowersQuery : Type 0 where
  pub requester_pubkey : Option Text
  pub user_pubkey : Option Text
  pub limit : Option ℕ
  pub before : Option Text
  pub after : Option Text

pub record GetNotificationsCountQuery : Type 0 where
  pub requester_pubkey : Option Text
  pub after : Option Text
