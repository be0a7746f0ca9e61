-- ===== src/Routes/Modest.antt =====
-- How much the routes of K-webserver/src/web_server.rs ask of the database.
pub mod All
use k_indexer.Prelude.{
  ℕ, ◌+◌, ◌-◌, ◌/◌, ◌%◌, ◌^◌, ◌≡◌, refl, ap, Bool, true, false, not, ◌&&◌, ◌||◌, Option, none, some,
  List, [], ◌∷◌, ltb, leb, if◌then◌else◌, Bool-cases, inl, inr, arith,
}
use k_indexer.Text.{Text, codes}
use k_indexer.Protocol.Messages.{unwrap_or}
use k_indexer.Api.{
  Result, ok, err, ◌>>=◌, ◌>>◌, DatabaseError, DatabaseResult, DatabaseInterface, QueryOptions,
  Serde, query_options, queried, serialized,
}
use k_indexer.Api.Posts.{
  fetch_limit, get_posts_paginated, get_posts_watching_paginated, get_content_following_paginated,
  get_hashtag_content_paginated, get_replies_paginated, get_user_replies_paginated,
  get_mentions_paginated, get_notifications_paginated,
}
use k_indexer.Api.Users.{
  require_window, get_users_paginated, get_most_active_users_paginated, search_users_paginated,
  get_blocked_users_paginated, get_followed_users_paginated, get_users_following_paginated,
  get_users_followers_paginated, without_prefix, active_user, users_response,
}
use k_indexer.Api.Details.{
  with_rank, get_post_details, get_user_details, get_notification_count, get_users_count,
  get_trending_hashtags,
}
use k_indexer.Api.Requests.{Request, handle}
use k_indexer.Routes.{
  Response, AppState, required, required_limit, valid_limit, valid_window, bad, respond,
}

-- A database that answers no query for a page of no rows or of more than 101.
unfoldable pub is_modest : QueryOptions → Bool
is_modest o = elim o.limit [ none ↦ false | some n ↦ leb 1 n && leb n 101 ]

unfoldable pub guarded {ℓ} : {A : Type ℓ} → QueryOptions → DatabaseResult A → DatabaseResult A
unfolding is_modest
guarded o r = if is_modest o then r else err DatabaseError.not_found

unfoldable pub modest : DatabaseInterface → DatabaseInterface
unfolding guarded
modest db = record db {
  get_all_users = λ q o. guarded o (db.get_all_users q o);
  get_most_active_users = λ q o f t. guarded o (db.get_most_active_users q o f t);
  search_users = λ q o k n. guarded o (db.search_users q o k n);
  get_blocked_users_by_requester = λ q o. guarded o (db.get_blocked_users_by_requester q o);
  get_followed_users_by_requester = λ q o. guarded o (db.get_followed_users_by_requester q o);
  get_users_following = λ q u o. guarded o (db.get_users_following q u o);
  get_users_followers = λ q u o. guarded o (db.get_users_followers q u o);
  get_all_posts = λ q o. guarded o (db.get_all_posts q o);
  get_content_following = λ q o. guarded o (db.get_content_following q o);
  get_contents_mentioning_user = λ u q o. guarded o (db.get_contents_mentioning_user u q o);
  get_replies_by_post_id = λ p q o. guarded o (db.get_replies_by_post_id p q o);
  get_replies_by_user = λ u q o. guarded o (db.get_replies_by_user u q o);
  get_posts_by_user = λ u q o. guarded o (db.get_posts_by_user u q o);
  get_notifications = λ q o. guarded o (db.get_notifications q o);
  get_hashtag_content = λ t q o. guarded o (db.get_hashtag_content t q o);
  get_trending_hashtags =
      λ f t n. guarded (query_options n none none) (db.get_trending_hashtags f t n);
}

-- The limits that the routes accept.
abbrev pub is_limit : ℕ → Bool
is_limit n = not (ltb n 1 || ltb 100 n)

guarded-query_options {ℓ} :
    {A : Type ℓ} (n : ℕ) (before after : Option Text) (r : DatabaseResult A)
    → is_limit n ≡ true
    → guarded (query_options n before after) r ≡ r
unfolding guarded query_options
guarded-query_options n before after r h = ground arith

guarded-fetch_limit {ℓ} :
    {A : Type ℓ} (n : ℕ) (before after : Option Text) (r : DatabaseResult A)
    → is_limit n ≡ true
    → guarded (query_options (fetch_limit n) before after) r ≡ r
unfolding guarded query_options
guarded-fetch_limit n before after r h = ground arith

-- What a request says of its limit.
unfoldable pub has_limit : Request → Bool
has_limit (Request.posts _ _ n _ _) = is_limit n
has_limit (Request.posts_watching _ n _ _) = is_limit n
has_limit (Request.content_following _ n _ _) = is_limit n
has_limit (Request.hashtag_content _ _ n _ _) = is_limit n
has_limit (Request.replies _ _ n _ _) = is_limit n
has_limit (Request.user_replies _ _ n _ _) = is_limit n
has_limit (Request.mentions _ _ n _ _) = is_limit n
has_limit (Request.notifications _ n _ _) = is_limit n
has_limit (Request.users n _ _ _) = is_limit n
has_limit (Request.most_active_users n _ _ _ _) = is_limit n
has_limit (Request.search_users n _ _ _ _ _) = is_limit n
has_limit (Request.blocked_users _ n _ _) = is_limit n
has_limit (Request.followed_users _ n _ _) = is_limit n
has_limit (Request.users_following _ _ n _ _) = is_limit n
has_limit (Request.users_followers _ _ n _ _) = is_limit n
has_limit (Request.trending_hashtags _ n) = is_limit n
has_limit _ = true

-- A handler asks a modest database what it asks any other.
pub handle-modest :
    (db : DatabaseInterface) (serde : Serde) (now : ℕ) (r : Request)
    → has_limit r ≡ true
    → handle (modest db) serde now r ≡ handle db serde now r
unfolding handle has_limit modest get_posts_paginated get_posts_watching_paginated
    get_content_following_paginated get_hashtag_content_paginated get_replies_paginated
    get_user_replies_paginated get_mentions_paginated get_notifications_paginated
    get_users_paginated get_most_active_users_paginated search_users_paginated
    get_blocked_users_paginated get_followed_users_paginated get_users_following_paginated
    get_users_followers_paginated get_post_details get_user_details get_notification_count
    get_users_count get_trending_hashtags
handle-modest db serde now (Request.posts u q n b a) h =
    rw (guarded-query_options n b a (db.get_posts_by_user u q (query_options n b a)) h)
handle-modest db serde now (Request.posts_watching q n b a) h =
    rw (guarded-query_options n b a (db.get_all_posts q (query_options n b a)) h)
handle-modest db serde now (Request.content_following q n b a) h =
    rw (guarded-query_options n b a (db.get_content_following q (query_options n b a)) h)
handle-modest db serde now (Request.hashtag_content t q n b a) h =
    rw (guarded-query_options n b a (db.get_hashtag_content t q (query_options n b a)) h)
handle-modest db serde now (Request.replies p q n b a) h =
    rw (guarded-query_options n b a (db.get_replies_by_post_id p q (query_options n b a)) h)
handle-modest db serde now (Request.user_replies u q n b a) h =
    rw (guarded-query_options n b a (db.get_replies_by_user u q (query_options n b a)) h)
handle-modest db serde now (Request.mentions u q n b a) h = rw (
    guarded-fetch_limit n b a
      (db.get_contents_mentioning_user u q (query_options (fetch_limit n) b a)) h)
handle-modest db serde now (Request.notifications q n b a) h =
    rw (guarded-fetch_limit n b a (db.get_notifications q (query_options (fetch_limit n) b a)) h)
handle-modest db serde now (Request.users n q b a) h =
    rw (guarded-query_options n b a (db.get_all_users q (query_options n b a)) h)
handle-modest db serde now (Request.most_active_users n q w b a) h =
    ap (λ k. require_window serde w >>= k)
      (λ i millis.
        queried serde (
          guarded-query_options n b a
            (db.get_most_active_users q (query_options n b a) (now - millis) now) h i)
        >>= users_response serde active_user)
handle-modest db serde now (Request.search_users n q b a k m) h =
    rw
      (guarded-query_options n b a (db.search_users q (query_options n b a) (without_prefix k) m) h)
handle-modest db serde now (Request.blocked_users q n b a) h =
    rw (guarded-query_options n b a (db.get_blocked_users_by_requester q (query_options n b a)) h)
handle-modest db serde now (Request.followed_users q n b a) h =
    rw (guarded-query_options n b a (db.get_followed_users_by_requester q (query_options n b a)) h)
handle-modest db serde now (Request.users_following q u n b a) h =
    rw (guarded-query_options n b a (db.get_users_following q u (query_options n b a)) h)
handle-modest db serde now (Request.users_followers q u n b a) h =
    rw (guarded-query_options n b a (db.get_users_followers q u (query_options n b a)) h)
handle-modest db serde now (Request.trending_hashtags w n) h =
    ap (λ k. require_window serde w >>= k)
      (λ i millis.
        queried serde
          (guarded-query_options n none none (db.get_trending_hashtags (now - millis) now n) h i)
        >>= λ trending_hashtags. serialized serde serde.trending (record {
          time_window = w;
          from_time = (now - millis) / 1000;
          to_time = now / 1000;
          hashtags = with_rank 0 trending_hashtags;
        }))
handle-modest db serde now r h = refl
