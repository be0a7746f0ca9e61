-- ===== src/Api/Requests.antt =====
-- The requests that the handlers of K-webserver/src/api_handlers.rs answer, as one type, and the
-- handler of each. A request is one call of a handler, whose other arguments are the database, the
-- JSON library and the clock.
use k_indexer.Prelude.{ℕ, ◌-◌, Bool, true, false, ◌&&◌, ◌||◌, Option, none, some, ◌==◌}
use k_indexer.Text.{Text, codes, byte_len, all, is_ascii_hexdigit, starts_with}
use k_indexer.Models.Posts.{is_some}
use k_indexer.Api.{Result, ok, err, DatabaseInterface, DatabaseResult, Serde, query_options}
use k_indexer.Api.Posts.{
  get_posts_paginated, get_posts_watching_paginated, get_content_following_paginated,
  get_hashtag_content_paginated, get_replies_paginated, get_user_replies_paginated, fetch_limit,
  get_mentions_paginated, get_notifications_paginated,
}
use k_indexer.Api.Users.{
  get_users_paginated, get_most_active_users_paginated, search_users_paginated,
  get_blocked_users_paginated, get_followed_users_paginated, get_users_following_paginated,
  get_users_followers_paginated, window_millis, without_prefix,
}
use k_indexer.Api.Details.{
  get_post_details, get_user_details, get_notification_count, get_users_count,
  get_trending_hashtags,
}

pub data Request : Type 0 where
  posts : (user requester : Text) (limit : ℕ) (before after : Option Text) → Request
  posts_watching : (requester : Text) (limit : ℕ) (before after : Option Text) → Request
  content_following : (requester : Text) (limit : ℕ) (before after : Option Text) → Request
  hashtag_content : (hashtag requester : Text) (limit : ℕ) (before after : Option Text) → Request
  replies : (post_id requester : Text) (limit : ℕ) (before after : Option Text) → Request
  user_replies : (user requester : Text) (limit : ℕ) (before after : Option Text) → Request
  mentions : (user requester : Text) (limit : ℕ) (before after : Option Text) → Request
  notifications : (requester : Text) (limit : ℕ) (before after : Option Text) → Request
  users : (limit : ℕ) (requester : Text) (before after : Option Text) → Request
  most_active_users :
      (limit : ℕ) (requester time_window : Text) (before after : Option Text) → Request
  search_users :
      (limit : ℕ) (requester : Text) (before after pubkey nickname : Option Text) → Request
  blocked_users : (requester : Text) (limit : ℕ) (before after : Option Text) → Request
  followed_users : (requester : Text) (limit : ℕ) (before after : Option Text) → Request
  users_following : (requester user : Text) (limit : ℕ) (before after : Option Text) → Request
  users_followers : (requester user : Text) (limit : ℕ) (before after : Option Text) → Request
  post_details : (content_id requester : Text) → Request
  user_details : (user requester : Text) → Request
  notification_count : (requester : Text) (after : Option Text) → Request
  users_count : Request
  trending_hashtags : (time_window : Text) (limit : ℕ) → Request

unfoldable pub handle : DatabaseInterface → Serde → (now : ℕ) → Request → Result Text Text
handle db serde now (posts u q n b a) = get_posts_paginated db serde u q n b a
handle db serde now (posts_watching q n b a) = get_posts_watching_paginated db serde q n b a
handle db serde now (content_following q n b a) = get_content_following_paginated db serde q n b a
handle db serde now (hashtag_content t q n b a) = get_hashtag_content_paginated db serde t q n b a
handle db serde now (replies p q n b a) = get_replies_paginated db serde p q n b a
handle db serde now (user_replies u q n b a) = get_user_replies_paginated db serde u q n b a
handle db serde now (mentions u q n b a) = get_mentions_paginated db serde u q n b a
handle db serde now (notifications q n b a) = get_notifications_paginated db serde q n b a
handle db serde now (users n q b a) = get_users_paginated db serde n q b a
handle db serde now (most_active_users n q w b a) =
    get_most_active_users_paginated db serde now n q w b a
handle db serde now (search_users n q b a k m) = search_users_paginated db serde n q b a k m
handle db serde now (blocked_users q n b a) = get_blocked_users_paginated db serde q n b a
handle db serde now (followed_users q n b a) = get_followed_users_paginated db serde q n b a
handle db serde now (users_following q u n b a) = get_users_following_paginated db serde q u n b a
handle db serde now (users_followers q u n b a) = get_users_followers_paginated db serde q u n b a
handle db serde now (post_details c q) = get_post_details db serde c q
handle db serde now (user_details u q) = get_user_details db serde u q
handle db serde now (notification_count q a) = get_notification_count db serde q a
handle db serde now users_count = get_users_count db serde
handle db serde now (trending_hashtags w n) = get_trending_hashtags db serde now w n

-- What a key, an id and a searched key must be for the checks; hex digits are not asked of a searched key.
unfoldable pub is_public_key : Text → Bool
is_public_key key =
    byte_len key == 66
    && (all is_ascii_hexdigit key && (starts_with key (codes "02") || starts_with key (codes "03")))

unfoldable pub is_id : Text → Bool
is_id id = byte_len id == 64 && all is_ascii_hexdigit id

unfoldable pub is_searched : Option Text → Bool
is_searched none = true
is_searched (some key) =
    byte_len key == 66 && (starts_with key (codes "02") || starts_with key (codes "03"))

-- Whether the arguments pass the checks of the request's handler. Three handlers of lists of users do not
-- check the key of the requester, so the queries meet it as it is.
unfoldable pub passes_checks : Request → Bool
passes_checks (posts u q n b a) = is_public_key u && is_public_key q
passes_checks (posts_watching q n b a) = is_public_key q
passes_checks (content_following q n b a) = is_public_key q
passes_checks (hashtag_content t q n b a) = is_public_key q
passes_checks (replies p q n b a) = is_id p && is_public_key q
passes_checks (user_replies u q n b a) = is_public_key u && is_public_key q
passes_checks (mentions u q n b a) = is_public_key u && is_public_key q
passes_checks (notifications q n b a) = is_public_key q
passes_checks (users n q b a) = true
passes_checks (most_active_users n q w b a) = is_some (window_millis w)
passes_checks (search_users n q b a k m) = is_searched k
passes_checks (blocked_users q n b a) = is_public_key q
passes_checks (followed_users q n b a) = is_public_key q
passes_checks (users_following q u n b a) = is_public_key q && is_public_key u
passes_checks (users_followers q u n b a) = is_public_key q && is_public_key u
passes_checks (post_details c q) = is_id c && is_public_key q
passes_checks (user_details u q) = is_public_key u && is_public_key q
passes_checks (notification_count q a) = is_public_key q
passes_checks users_count = true
passes_checks (trending_hashtags w n) = is_some (window_millis w)

abbrev pub is_ok {ℓ κ} : {E : Type ℓ} {A : Type κ} → Result E A → Bool
is_ok (ok _) = true
is_ok (err _) = false

abbrev pub finds {ℓ} : {A : Type ℓ} → DatabaseResult (Option A) → Bool
finds (ok a) = is_some a
finds (err _) = false

-- Whether the database answers the query of a request; for a content, with the content.
unfoldable pub is_answered : DatabaseInterface → (now : ℕ) → Request → Bool
is_answered db now (posts u q n b a) = is_ok (db.get_posts_by_user u q (query_options n b a))
is_answered db now (posts_watching q n b a) = is_ok (db.get_all_posts q (query_options n b a))
is_answered db now (content_following q n b a) =
    is_ok (db.get_content_following q (query_options n b a))
is_answered db now (hashtag_content t q n b a) =
    is_ok (db.get_hashtag_content t q (query_options n b a))
is_answered db now (replies p q n b a) = is_ok (db.get_replies_by_post_id p q (query_options n b a))
is_answered db now (user_replies u q n b a) =
    is_ok (db.get_replies_by_user u q (query_options n b a))
is_answered db now (mentions u q n b a) =
    is_ok (db.get_contents_mentioning_user u q (query_options (fetch_limit n) b a))
is_answered db now (notifications q n b a) =
    is_ok (db.get_notifications q (query_options (fetch_limit n) b a))
is_answered db now (users n q b a) = is_ok (db.get_all_users q (query_options n b a))
is_answered db now (most_active_users n q w b a) = elim (window_millis w) [
  | none ↦ false
  | some millis ↦ is_ok (db.get_most_active_users q (query_options n b a) (now - millis) now)
]
is_answered db now (search_users n q b a k m) =
    is_ok (db.search_users q (query_options n b a) (without_prefix k) m)
is_answered db now (blocked_users q n b a) =
    is_ok (db.get_blocked_users_by_requester q (query_options n b a))
is_answered db now (followed_users q n b a) =
    is_ok (db.get_followed_users_by_requester q (query_options n b a))
is_answered db now (users_following q u n b a) =
    is_ok (db.get_users_following q u (query_options n b a))
is_answered db now (users_followers q u n b a) =
    is_ok (db.get_users_followers q u (query_options n b a))
is_answered db now (post_details c q) = finds (db.get_content_by_id c q)
is_answered db now (user_details u q) = is_ok (db.get_user_details u q)
is_answered db now (notification_count q a) = is_ok (db.get_notification_count q a)
is_answered db now users_count = is_ok db.get_users_count
is_answered db now (trending_hashtags w n) = elim (window_millis w) [
  | none ↦ false
  | some millis ↦ is_ok (db.get_trending_hashtags (now - millis) now n)
]
