-- ===== src/Routes/Modest/All.antt =====
-- How much the routes of K-webserver/src/web_server.rs ask of the database: all routes.
use k_indexer.Prelude.{
  ℕ, ◌≡◌, refl, ap, true, ◌||◌, Option, none, some, List, [], ◌∷◌, ltb, Bool-cases, inl, inr,
}
use k_indexer.Text.{Text, codes}
use k_indexer.Protocol.Messages.{unwrap_or}
use k_indexer.Api.{◌>>=◌, Codec}
use k_indexer.Api.Requests.{Request, handle}
use k_indexer.Routes.{
  Response, AppState, required, required_limit, valid_limit, valid_window, respond,
}
use k_indexer.Routes.Lists.{
  valid_hashtag, replies_mode, handle_get_posts, handle_get_mentions, handle_get_notifications,
  handle_get_hashtag_content, handle_get_posts_watching, handle_get_contents_following,
  handle_get_post_details, handle_get_replies,
}
use k_indexer.Routes.People.{
  handle_health, handle_stats, handle_get_users, handle_get_most_active_users, handle_search_users,
  handle_get_user_details, handle_get_blocked_users, handle_get_followed_users,
  handle_get_users_following, handle_get_users_followers, handle_get_notifications_count,
  handle_get_users_count, handle_get_trending_hashtags,
}
use k_indexer.Routes.Calls.{Call, answer}
use k_indexer.Routes.Modest.{modest, is_limit, has_limit, handle-modest}

-- Behind a check of another parameter.
behind {ℓ κ} :
    {A : Type ℓ} {B : Type κ} (m : Response A) {k₁ k₂ : A → Response B}
    → ((a : A) → k₁ a ≡ k₂ a)
    → (m >>= k₁) ≡ (m >>= k₂)
behind m h = λ i. m >>= λ a. h a i

-- Behind the check of the limit, which lets through what is one.
behind_valid_limit {ℓ} :
    {B : Type ℓ} (n : ℕ) {k₁ k₂ : ℕ → Response B}
    → ((n : ℕ) → is_limit n ≡ true → k₁ n ≡ k₂ n)
    → (valid_limit n >>= k₁) ≡ (valid_limit n >>= k₂)
unfolding valid_limit ◌>>=◌
behind_valid_limit n h = elim (Bool-cases (ltb n 1 || ltb 100 n)) [
  | inl e ↦ rw e
  | inr e ↦ rw e (h n (rw e))
]

behind_limit {ℓ} :
    {B : Type ℓ} (o : Option ℕ) {k₁ k₂ : ℕ → Response B}
    → ((n : ℕ) → is_limit n ≡ true → k₁ n ≡ k₂ n)
    → (required_limit o >>= k₁) ≡ (required_limit o >>= k₂)
unfolding required_limit ◌>>=◌
behind_limit none h = refl
behind_limit (some n) h = behind_valid_limit n h

-- The codes that most routes list.
abbrev standard : List Text
standard = codes "MISSING_PARAMETER" ∷ codes "INVALID_USER_KEY" ∷ codes "INVALID_LIMIT" ∷ []

respond-modest {ℓ} :
    {A : Type ℓ} (app : AppState) (codec : Codec A) (bad_requests not_founds : List Text)
    (r : Request)
    → has_limit r ≡ true
    → respond app.serde codec bad_requests not_founds (handle (modest app.db) app.serde app.now r)
      ≡ respond app.serde codec bad_requests not_founds (handle app.db app.serde app.now r)
respond-modest app codec bad_requests not_founds r h =
    ap (respond app.serde codec bad_requests not_founds)
      (handle-modest app.db app.serde app.now r h)

replies_mode-modest :
    (app : AppState) (post user : Option Text) (q : Text) (n : ℕ) (before after : Option Text)
    → is_limit n ≡ true
    → replies_mode (record app { db = modest app.db }) post user q n before after
      ≡ replies_mode app post user q n before after
unfolding replies_mode handle has_limit
replies_mode-modest app (some p) none q n b a h =
    respond-modest app app.serde.replies
      (codes "MISSING_PARAMETER"
        ∷ codes "INVALID_POST_ID"
        ∷ codes "INVALID_USER_KEY"
        ∷ codes "INVALID_LIMIT"
        ∷ [])
      [] (Request.replies p q n b a) h
replies_mode-modest app none (some u) q n b a h =
    respond-modest app app.serde.replies standard [] (Request.user_replies u q n b a) h
replies_mode-modest app (some p) (some u) q n b a h = refl
replies_mode-modest app none none q n b a h = refl

-- Every route gives the answer that it would give if the database answered only queries for pages of 1 to
-- 101 rows: none asks for a page of no rows or of more.
pub answer-modest :
    (app : AppState) (c : Call) → answer (record app { db = modest app.db }) c ≡ answer app c
unfolding answer handle has_limit modest handle_health handle_stats handle_get_posts
    handle_get_mentions handle_get_notifications handle_get_hashtag_content
    handle_get_posts_watching handle_get_contents_following handle_get_post_details
    handle_get_replies handle_get_users handle_get_most_active_users handle_search_users
    handle_get_user_details handle_get_blocked_users handle_get_followed_users
    handle_get_users_following handle_get_users_followers handle_get_notifications_count
    handle_get_users_count handle_get_trending_hashtags
answer-modest app (Call.get_replies params) =
    behind (required (codes "requesterPubkey") params.requester_pubkey) (λ q.
      behind_limit params.limit
        (λ n h. replies_mode-modest app params.post params.user q n params.before params.after h))
answer-modest app (Call.get_posts params) = behind (required (codes "user") params.user) (λ u.
    behind (required (codes "requesterPubkey") params.requester_pubkey) (λ q.
      behind_limit params.limit (λ n h.
        respond-modest app app.serde.posts standard []
          (Request.posts u q n params.before params.after) h)))
answer-modest app (Call.get_posts_watching params) =
    behind (required (codes "requesterPubkey") params.requester_pubkey) (λ q.
      behind_limit params.limit (λ n h.
        respond-modest app app.serde.posts standard []
          (Request.posts_watching q n params.before params.after) h))
answer-modest app (Call.get_contents_following params) =
    behind (required (codes "requesterPubkey") params.requester_pubkey) (λ q.
      behind_limit params.limit (λ n h.
        respond-modest app app.serde.posts standard []
          (Request.content_following q n params.before params.after) h))
answer-modest app (Call.get_mentions params) = behind (required (codes "user") params.user) (λ u.
    behind (required (codes "requesterPubkey") params.requester_pubkey) (λ q.
      behind_limit params.limit (λ n h.
        respond-modest app app.serde.posts standard []
          (Request.mentions u q n params.before params.after) h)))
answer-modest app (Call.get_users params) = behind_limit params.limit (λ n h.
    behind (required (codes "requesterPubkey") params.requester_pubkey) (λ q.
      respond-modest app app.serde.users (codes "MISSING_PARAMETER" ∷ codes "INVALID_LIMIT" ∷ []) []
        (Request.users n q params.before params.after) h))
answer-modest app (Call.get_most_active_users params) =
    behind (required (codes "timeWindow") params.time_window) (λ t. behind (valid_window t) (λ w.
      behind_limit params.limit (λ n h.
        behind (required (codes "requesterPubkey") params.requester_pubkey) (λ q.
          respond-modest app app.serde.users
            (codes "MISSING_PARAMETER" ∷ codes "INVALID_LIMIT" ∷ codes "INVALID_PARAMETER" ∷ []) []
            (Request.most_active_users n q w params.before params.after) h))))
answer-modest app (Call.search_users params) = behind_limit params.limit (λ n h.
    behind (required (codes "requesterPubkey") params.requester_pubkey) (λ q.
      respond-modest app app.serde.users
        (codes "MISSING_PARAMETER" ∷ codes "INVALID_LIMIT" ∷ codes "INVALID_USER_KEY" ∷ []) []
        (Request.search_users n q params.before params.after params.searched_user_pubkey
          params.searched_user_nickname)
        h))
answer-modest app (Call.get_followed_users params) =
    behind (required (codes "requesterPubkey") params.requester_pubkey) (λ q.
      behind_limit params.limit (λ n h.
        respond-modest app app.serde.users standard []
          (Request.followed_users q n params.before params.after) h))
answer-modest app (Call.get_users_following params) =
    behind (required (codes "requesterPubkey") params.requester_pubkey) (λ q.
      behind (required (codes "userPubkey") params.user_pubkey) (λ p.
        behind_limit params.limit (λ n h.
          respond-modest app app.serde.users standard []
            (Request.users_following q p n params.before params.after) h)))
answer-modest app (Call.get_users_followers params) =
    behind (required (codes "requesterPubkey") params.requester_pubkey) (λ q.
      behind (required (codes "userPubkey") params.user_pubkey) (λ p.
        behind_limit params.limit (λ n h.
          respond-modest app app.serde.users standard []
            (Request.users_followers q p n params.before params.after) h)))
answer-modest app (Call.get_blocked_users params) =
    behind (required (codes "requesterPubkey") params.requester_pubkey) (λ q.
      behind_limit params.limit (λ n h.
        respond-modest app app.serde.users standard []
          (Request.blocked_users q n params.before params.after) h))
answer-modest app (Call.get_notifications params) =
    behind (required (codes "requesterPubkey") params.requester_pubkey) (λ q.
      behind_limit params.limit (λ n h.
        respond-modest app app.serde.notifications standard []
          (Request.notifications q n params.before params.after) h))
answer-modest app (Call.get_hashtag_content params) =
    behind (required (codes "hashtag") params.hashtag) (λ g.
      behind (valid_hashtag (app.to_lowercase g)) (λ tag.
        behind_valid_limit (unwrap_or 20 params.limit) (λ n h.
          behind (required (codes "requesterPubkey") params.requester_pubkey) (λ q.
            respond-modest app app.serde.posts
              (codes "MISSING_PARAMETER" ∷ codes "INVALID_PARAMETER" ∷ codes "INVALID_LIMIT" ∷ [])
              (codes "NOT_FOUND" ∷ []) (Request.hashtag_content tag q n params.before params.after)
              h))))
answer-modest app (Call.get_trending_hashtags params) =
    behind (valid_window (unwrap_or (codes "24h") params.time_window)) (λ w.
      behind_valid_limit (unwrap_or 20 params.limit) (λ n h.
        respond-modest app app.serde.trending
          (codes "INVALID_PARAMETER" ∷ codes "INVALID_LIMIT" ∷ []) []
          (Request.trending_hashtags w n) h))
answer-modest app c = refl
