-- ===== src/Routes/Status/All.antt =====
-- The statuses of all routes of K-webserver/src/web_server.rs.
use k_indexer.Prelude.{ℕ, refl, Bool, true, false, Option, none, some, List, [], ◌∷◌}
use k_indexer.Text.{Text, codes}
use k_indexer.Protocol.Messages.{unwrap_or}
use k_indexer.Api.{ok, err, DatabaseStats}
use k_indexer.Api.Requests.{Request, handle}
use k_indexer.Api.Guards.Errors.{keys, ids, details, plain, windows, errors_of, handle-Fails}
use k_indexer.Routes.{StatusCode, AppState, api_error}
use k_indexer.Routes.Lists.{
  replies_mode, handle_get_posts, handle_get_mentions, handle_get_notifications,
  handle_get_hashtag_content, handle_get_posts_watching, handle_get_contents_following,
  handle_get_post_details, handle_get_replies,
}
use k_indexer.Routes.People.{
  HealthResponse, handle_health, handle_stats, handle_get_users, handle_get_most_active_users,
  handle_search_users, handle_get_user_details, handle_get_blocked_users, handle_get_followed_users,
  handle_get_users_following, handle_get_users_followers, handle_get_notifications_count,
  handle_get_users_count, handle_get_trending_hashtags,
}
use k_indexer.Routes.Calls.{Call, answer}
use k_indexer.Routes.Status.{
  IsReported, answered, reported, IsFaithful, bind-IsReported, bad-IsReported, required-IsReported,
  valid_limit-IsReported, required_limit-IsReported, valid_window-IsReported,
  valid_hashtag-IsReported, respond-IsReported, all_reported, expected,
}

-- The routes whose match on the code has no arm for INVALID_USER_KEY, which so falls to 500.
unfoldable pub is_lenient : Call → Bool
is_lenient (Call.get_post_details _) = true
is_lenient (Call.get_hashtag_content _) = true
is_lenient _ = false

-- The codes that most routes list.
abbrev standard : List Text
standard = codes "MISSING_PARAMETER" ∷ codes "INVALID_USER_KEY" ∷ codes "INVALID_LIMIT" ∷ []

replies_mode-IsReported :
    (app : AppState)
    → IsFaithful app.serde.api_error
    → (post user : Option Text) (q : Text) (n : ℕ) (before after : Option Text)
    → IsReported false (replies_mode app post user q n before after)
unfolding replies_mode handle errors_of all_reported expected
replies_mode-IsReported app faithful (some p) none q n b a =
    respond-IsReported app.serde faithful app.serde.replies false ids
      (codes "MISSING_PARAMETER"
        ∷ codes "INVALID_POST_ID"
        ∷ codes "INVALID_USER_KEY"
        ∷ codes "INVALID_LIMIT"
        ∷ [])
      [] refl _ (handle-Fails app.db app.serde app.now (Request.replies p q n b a))
replies_mode-IsReported app faithful none (some u) q n b a =
    respond-IsReported app.serde faithful app.serde.replies false keys standard [] refl _
      (handle-Fails app.db app.serde app.now (Request.user_replies u q n b a))
replies_mode-IsReported app faithful (some p) (some u) q n b a =
    bad-IsReported false _ (codes "INVALID_PARAMETERS") refl
replies_mode-IsReported app faithful none none q n b a =
    bad-IsReported false _ (codes "MISSING_PARAMETER") refl

handle_health-IsReported : (app : AppState) → IsReported false (handle_health app)
unfolding handle_health
handle_health-IsReported app =
    elim app.db.get_network
      as (λ r. IsReported {A = HealthResponse} false (elim r [
        | ok network ↦ ok (record { network = network })
        | err _ ↦ ok (record { network = codes "unknown" })
      ])) [ ok network ↦ answered _ | err _ ↦ answered _ ]

handle_stats-IsReported : (app : AppState) → IsReported false (handle_stats app)
unfolding handle_stats expected
handle_stats-IsReported app =
    elim app.db.get_stats
      as (λ r. IsReported {A = DatabaseStats} false (elim r [
        | ok stats ↦ ok stats
        | err _ ↦ err (
          StatusCode.internal_server_error,
          api_error (codes "Failed to retrieve database statistics") (codes "INTERNAL_ERROR"),
        )
      ])) [
        | ok stats ↦ answered stats
        | err _ ↦ reported _ (api_error _ (codes "INTERNAL_ERROR")) refl
      ]

pub answer-IsReported :
    (app : AppState)
    → IsFaithful app.serde.api_error
    → (c : Call) → IsReported (is_lenient c) (answer app c)
unfolding answer is_lenient handle errors_of all_reported expected handle_health handle_get_posts
    handle_get_mentions handle_get_notifications handle_get_hashtag_content
    handle_get_posts_watching handle_get_contents_following handle_get_post_details
    handle_get_replies handle_get_users handle_get_most_active_users handle_search_users
    handle_get_user_details handle_get_blocked_users handle_get_followed_users
    handle_get_users_following handle_get_users_followers handle_get_notifications_count
    handle_get_users_count handle_get_trending_hashtags
answer-IsReported app faithful Call.health = handle_health-IsReported app
answer-IsReported app faithful Call.stats = handle_stats-IsReported app
answer-IsReported app faithful (Call.get_replies params) =
    bind-IsReported (required-IsReported false (codes "requesterPubkey") params.requester_pubkey)
      (λ q. bind-IsReported (required_limit-IsReported false params.limit) (λ n.
        replies_mode-IsReported app faithful params.post params.user q n params.before
          params.after))
answer-IsReported app faithful (Call.get_posts params) =
    bind-IsReported (required-IsReported false (codes "user") params.user) (λ u.
      bind-IsReported (required-IsReported false (codes "requesterPubkey") params.requester_pubkey)
        (λ q. bind-IsReported (required_limit-IsReported false params.limit) (λ n.
          respond-IsReported app.serde faithful app.serde.posts false keys standard [] refl _ (
            handle-Fails app.db app.serde app.now
              (Request.posts u q n params.before params.after)))))
answer-IsReported app faithful (Call.get_post_details params) =
    bind-IsReported (required-IsReported true (codes "id") params.id) (λ i.
      bind-IsReported (required-IsReported true (codes "requesterPubkey") params.requester_pubkey)
        (λ q.
          respond-IsReported app.serde faithful app.serde.post_details true details
            (codes "MISSING_PARAMETER" ∷ codes "INVALID_POST_ID" ∷ []) (codes "NOT_FOUND" ∷ []) refl
            _ (handle-Fails app.db app.serde app.now (Request.post_details i q))))
answer-IsReported app faithful (Call.get_posts_watching params) =
    bind-IsReported (required-IsReported false (codes "requesterPubkey") params.requester_pubkey)
      (λ q. bind-IsReported (required_limit-IsReported false params.limit) (λ n.
        respond-IsReported app.serde faithful app.serde.posts false keys standard [] refl _ (
          handle-Fails app.db app.serde app.now
            (Request.posts_watching q n params.before params.after))))
answer-IsReported app faithful (Call.get_contents_following params) =
    bind-IsReported (required-IsReported false (codes "requesterPubkey") params.requester_pubkey)
      (λ q. bind-IsReported (required_limit-IsReported false params.limit) (λ n.
        respond-IsReported app.serde faithful app.serde.posts false keys standard [] refl _ (
          handle-Fails app.db app.serde app.now
            (Request.content_following q n params.before params.after))))
answer-IsReported app faithful (Call.get_mentions params) =
    bind-IsReported (required-IsReported false (codes "user") params.user) (λ u.
      bind-IsReported (required-IsReported false (codes "requesterPubkey") params.requester_pubkey)
        (λ q. bind-IsReported (required_limit-IsReported false params.limit) (λ n.
          respond-IsReported app.serde faithful app.serde.posts false keys standard [] refl _ (
            handle-Fails app.db app.serde app.now
              (Request.mentions u q n params.before params.after)))))
answer-IsReported app faithful (Call.get_users params) =
    bind-IsReported (required_limit-IsReported false params.limit) (λ n.
      bind-IsReported (required-IsReported false (codes "requesterPubkey") params.requester_pubkey)
        (λ q.
          respond-IsReported app.serde faithful app.serde.users false plain
            (codes "MISSING_PARAMETER" ∷ codes "INVALID_LIMIT" ∷ []) [] refl _
            (handle-Fails app.db app.serde app.now (Request.users n q params.before params.after))))
answer-IsReported app faithful (Call.get_most_active_users params) =
    bind-IsReported (required-IsReported false (codes "timeWindow") params.time_window) (λ t.
      bind-IsReported (valid_window-IsReported false t) (λ w.
        bind-IsReported (required_limit-IsReported false params.limit) (λ n.
          bind-IsReported
            (required-IsReported false (codes "requesterPubkey") params.requester_pubkey)
            (λ q.
              respond-IsReported app.serde faithful app.serde.users false windows
                (codes "MISSING_PARAMETER" ∷ codes "INVALID_LIMIT" ∷ codes "INVALID_PARAMETER" ∷ [])
                [] refl _
                (handle-Fails app.db app.serde app.now
                  (Request.most_active_users n q w params.before params.after))))))
answer-IsReported app faithful Call.get_users_count =
    respond-IsReported app.serde faithful app.serde.count false plain [] [] refl _
      (handle-Fails app.db app.serde app.now (Request.users_count))
answer-IsReported app faithful (Call.search_users params) =
    bind-IsReported (required_limit-IsReported false params.limit) (λ n.
      bind-IsReported (required-IsReported false (codes "requesterPubkey") params.requester_pubkey)
        (λ q.
          respond-IsReported app.serde faithful app.serde.users false keys
            (codes "MISSING_PARAMETER" ∷ codes "INVALID_LIMIT" ∷ codes "INVALID_USER_KEY" ∷ []) []
            refl _
            (handle-Fails app.db app.serde app.now (
              Request.search_users n q params.before params.after params.searched_user_pubkey
                params.searched_user_nickname))))
answer-IsReported app faithful (Call.get_user_details params) =
    bind-IsReported (required-IsReported false (codes "user") params.user) (λ u.
      bind-IsReported (required-IsReported false (codes "requesterPubkey") params.requester_pubkey)
        (λ q.
          respond-IsReported app.serde faithful app.serde.user_post false keys
            (codes "MISSING_PARAMETER" ∷ codes "INVALID_USER_KEY" ∷ [])
            (codes "USER_NOT_FOUND" ∷ []) refl _
            (handle-Fails app.db app.serde app.now (Request.user_details u q))))
answer-IsReported app faithful (Call.get_followed_users params) =
    bind-IsReported (required-IsReported false (codes "requesterPubkey") params.requester_pubkey)
      (λ q. bind-IsReported (required_limit-IsReported false params.limit) (λ n.
        respond-IsReported app.serde faithful app.serde.users false keys standard [] refl _ (
          handle-Fails app.db app.serde app.now
            (Request.followed_users q n params.before params.after))))
answer-IsReported app faithful (Call.get_users_following params) =
    bind-IsReported (required-IsReported false (codes "requesterPubkey") params.requester_pubkey)
      (λ q.
        bind-IsReported (required-IsReported false (codes "userPubkey") params.user_pubkey) (λ p.
          bind-IsReported (required_limit-IsReported false params.limit) (λ n.
            respond-IsReported app.serde faithful app.serde.users false keys standard [] refl _ (
              handle-Fails app.db app.serde app.now
                (Request.users_following q p n params.before params.after)))))
answer-IsReported app faithful (Call.get_users_followers params) =
    bind-IsReported (required-IsReported false (codes "requesterPubkey") params.requester_pubkey)
      (λ q.
        bind-IsReported (required-IsReported false (codes "userPubkey") params.user_pubkey) (λ p.
          bind-IsReported (required_limit-IsReported false params.limit) (λ n.
            respond-IsReported app.serde faithful app.serde.users false keys standard [] refl _ (
              handle-Fails app.db app.serde app.now
                (Request.users_followers q p n params.before params.after)))))
answer-IsReported app faithful (Call.get_blocked_users params) =
    bind-IsReported (required-IsReported false (codes "requesterPubkey") params.requester_pubkey)
      (λ q. bind-IsReported (required_limit-IsReported false params.limit) (λ n.
        respond-IsReported app.serde faithful app.serde.users false keys standard [] refl _ (
          handle-Fails app.db app.serde app.now
            (Request.blocked_users q n params.before params.after))))
answer-IsReported app faithful (Call.get_notifications_count params) =
    bind-IsReported (required-IsReported false (codes "requesterPubkey") params.requester_pubkey)
      (λ q.
        respond-IsReported app.serde faithful app.serde.count false keys
          (codes "MISSING_PARAMETER" ∷ codes "INVALID_USER_KEY" ∷ []) [] refl _
          (handle-Fails app.db app.serde app.now (Request.notification_count q params.after)))
answer-IsReported app faithful (Call.get_notifications params) =
    bind-IsReported (required-IsReported false (codes "requesterPubkey") params.requester_pubkey)
      (λ q. bind-IsReported (required_limit-IsReported false params.limit) (λ n.
        respond-IsReported app.serde faithful app.serde.notifications false keys standard [] refl _
          (handle-Fails app.db app.serde app.now
            (Request.notifications q n params.before params.after))))
answer-IsReported app faithful (Call.get_hashtag_content params) =
    bind-IsReported (required-IsReported true (codes "hashtag") params.hashtag) (λ g.
      bind-IsReported (valid_hashtag-IsReported true (app.to_lowercase g)) (λ tag.
        bind-IsReported (valid_limit-IsReported true (unwrap_or 20 params.limit)) (λ n.
          bind-IsReported
            (required-IsReported true (codes "requesterPubkey") params.requester_pubkey)
            (λ q.
              respond-IsReported app.serde faithful app.serde.posts true keys
                (codes "MISSING_PARAMETER" ∷ codes "INVALID_PARAMETER" ∷ codes "INVALID_LIMIT" ∷ [])
                (codes "NOT_FOUND" ∷ []) refl _
                (handle-Fails app.db app.serde app.now
                  (Request.hashtag_content tag q n params.before params.after))))))
answer-IsReported app faithful (Call.get_trending_hashtags params) =
    bind-IsReported (valid_window-IsReported false (unwrap_or (codes "24h") params.time_window))
      (λ w. bind-IsReported (valid_limit-IsReported false (unwrap_or 20 params.limit)) (λ n.
        respond-IsReported app.serde faithful app.serde.trending false windows
          (codes "INVALID_PARAMETER" ∷ codes "INVALID_LIMIT" ∷ []) [] refl _
          (handle-Fails app.db app.serde app.now (Request.trending_hashtags w n))))
