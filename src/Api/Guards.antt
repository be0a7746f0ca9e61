-- ===== src/Api/Guards.antt =====
-- What the handlers of K-webserver/src/api_handlers.rs do with a request whose arguments fail their checks.
pub mod Checks
pub mod Answers
pub mod Errors
use k_indexer.Prelude.{ℕ, ◌≡◌, refl, Bool, true, false, ◌&&◌, Option, none, arith}
use k_indexer.Text.{Text, codes}
use k_indexer.Models.Posts.{is_some}
use k_indexer.Api.{
  Result, ok, err, ◌>>=◌, ◌>>◌, DatabaseInterface, Serde, create_error_response, require_public_key,
  require_id,
}
use k_indexer.Api.Posts.{
  get_posts_paginated, get_posts_watching_paginated, get_content_following_paginated,
  get_hashtag_content_paginated, get_replies_paginated, get_user_replies_paginated,
  get_mentions_paginated, get_notifications_paginated,
}
use k_indexer.Api.Users.{
  get_most_active_users_paginated, search_users_paginated, get_blocked_users_paginated,
  get_followed_users_paginated, get_users_following_paginated, get_users_followers_paginated,
}
use k_indexer.Api.Details.{
  get_post_details, get_user_details, get_notification_count, get_trending_hashtags,
}
use k_indexer.Api.Requests.{Request, handle, passes_checks, is_public_key, is_id}
use k_indexer.Api.Guards.Checks.{
  ErrorCode, missing, database, serialization, parameter, code_text, Verdict, WindowVerdict,
  require_public_key-Verdict, require_id-Verdict, require_searched-Verdict,
  require_window-WindowVerdict,
}

-- The codes of the checks.
abbrev pub is_check : ErrorCode → Bool
is_check missing = false
is_check database = false
is_check serialization = false
is_check _ = true

-- Both results are one error, with the code of a check.
pub data IsRefused (serde : Serde) : Result Text Text → Result Text Text → Type 0 where
  refused :
      (message : Text) (code : ErrorCode)
      → is_check code ≡ true
      → IsRefused serde
          (err (create_error_response serde message (code_text code)))
          (err (create_error_response serde message (code_text code)))

module _ (serde : Serde) where
  -- The last check.
  at_check :
      {code : ErrorCode} {b : Bool} {m : Result Text (Unit {0})}
      → is_check code ≡ true
      → Verdict serde code b m
      → b ≡ false
      → (k₁ k₂ : Result Text Text) → IsRefused serde (m >> k₁) (m >> k₂)
  unfolding ◌>>◌
  at_check d Verdict.accepts h k₁ k₂ = ground arith
  at_check d (Verdict.refuses message) h k₁ k₂ = refused message _ d

  -- A check with others behind it.
  past_check :
      {code : ErrorCode} {b : Bool} {m : Result Text (Unit {0})}
      → is_check code ≡ true
      → Verdict serde code b m
      → (c : Bool) {k₁ k₂ : Result Text Text} → (b && c) ≡ false
      → (c ≡ false → IsRefused serde k₁ k₂)
      → IsRefused serde (m >> k₁) (m >> k₂)
  unfolding ◌>>◌
  past_check d Verdict.accepts c h rest = rest h
  past_check d (Verdict.refuses message) c h rest = refused message _ d

  at_window :
      {o : Option ℕ} {m : Result Text ℕ}
      → WindowVerdict serde o m
      → is_some o ≡ false
      → (k₁ k₂ : ℕ → Result Text Text) → IsRefused serde (m >>= k₁) (m >>= k₂)
  unfolding ◌>>=◌
  at_window (WindowVerdict.accepts millis) h k₁ k₂ = ground arith
  at_window (WindowVerdict.refuses message) h k₁ k₂ = refused message parameter refl

  -- A key; two keys; an id and a key.
  at_key :
      (name key : Text)
      → is_public_key key ≡ false
      → (k₁ k₂ : Result Text Text)
      → IsRefused serde
          (require_public_key serde name key >> k₁)
          (require_public_key serde name key >> k₂)
  at_key name key = at_check refl (require_public_key-Verdict serde name key)

  at_keys :
      (name key name' key' : Text)
      → (is_public_key key && is_public_key key') ≡ false
      → (k₁ k₂ : Result Text Text)
      → IsRefused serde
          (require_public_key serde name key >> (require_public_key serde name' key' >> k₁))
          (require_public_key serde name key >> (require_public_key serde name' key' >> k₂))
  at_keys name key name' key' h k₁ k₂ =
      past_check refl (require_public_key-Verdict serde name key) (is_public_key key') h
        (λ h. at_key name' key' h k₁ k₂)

  at_id :
      (name id name' key : Text)
      → (is_id id && is_public_key key) ≡ false
      → (k₁ k₂ : Result Text Text)
      → IsRefused serde
          (require_id serde name id >> (require_public_key serde name' key >> k₁))
          (require_id serde name id >> (require_public_key serde name' key >> k₂))
  at_id name id name' key h k₁ k₂ =
      past_check refl (require_id-Verdict serde name id) (is_public_key key) h
        (λ h. at_key name' key h k₁ k₂)

-- A request whose arguments do not pass the checks of its handler is refused with the code of a check, and
-- what the database holds makes no difference to the answer. The checks are those of the code: of the key of
-- the requester but for get-users, get-most-active-users and search-users, of a searched key by its length and
-- prefix alone, and of the other keys, ids and windows.
pub handle-IsRefused :
    (db₁ db₂ : DatabaseInterface) (serde : Serde) (now : ℕ) (r : Request)
    → passes_checks r ≡ false
    → IsRefused serde (handle db₁ serde now r) (handle db₂ serde now r)
unfolding handle passes_checks get_posts_paginated get_posts_watching_paginated
    get_content_following_paginated get_hashtag_content_paginated get_replies_paginated
    get_user_replies_paginated get_mentions_paginated get_notifications_paginated
    get_most_active_users_paginated search_users_paginated get_blocked_users_paginated
    get_followed_users_paginated get_users_following_paginated get_users_followers_paginated
    get_post_details get_user_details get_notification_count get_trending_hashtags
handle-IsRefused db₁ db₂ serde now (Request.posts u q n b a) h =
    at_keys serde (codes "user") u (codes "requester") q h _ _
handle-IsRefused db₁ db₂ serde now (Request.posts_watching q n b a) h =
    at_key serde (codes "requester") q h _ _
handle-IsRefused db₁ db₂ serde now (Request.content_following q n b a) h =
    at_key serde (codes "requester") q h _ _
handle-IsRefused db₁ db₂ serde now (Request.hashtag_content t q n b a) h =
    at_key serde (codes "requester") q h _ _
handle-IsRefused db₁ db₂ serde now (Request.replies p q n b a) h =
    at_id serde (codes "post") p (codes "requester") q h _ _
handle-IsRefused db₁ db₂ serde now (Request.user_replies u q n b a) h =
    at_keys serde (codes "user") u (codes "requester") q h _ _
handle-IsRefused db₁ db₂ serde now (Request.mentions u q n b a) h =
    at_keys serde (codes "user") u (codes "requester") q h _ _
handle-IsRefused db₁ db₂ serde now (Request.notifications q n b a) h =
    at_key serde (codes "requester") q h _ _
handle-IsRefused db₁ db₂ serde now (Request.users n q b a) h = ground arith
handle-IsRefused db₁ db₂ serde now (Request.most_active_users n q w b a) h =
    at_window serde (require_window-WindowVerdict serde w) h _ _
handle-IsRefused db₁ db₂ serde now (Request.search_users n q b a k m) h =
    at_check serde refl (require_searched-Verdict serde k) h _ _
handle-IsRefused db₁ db₂ serde now (Request.blocked_users q n b a) h =
    at_key serde (codes "requester") q h _ _
handle-IsRefused db₁ db₂ serde now (Request.followed_users q n b a) h =
    at_key serde (codes "requester") q h _ _
handle-IsRefused db₁ db₂ serde now (Request.users_following q u n b a) h =
    at_keys serde (codes "requester") q (codes "user") u h _ _
handle-IsRefused db₁ db₂ serde now (Request.users_followers q u n b a) h =
    at_keys serde (codes "requester") q (codes "user") u h _ _
handle-IsRefused db₁ db₂ serde now (Request.post_details c q) h =
    at_id serde (codes "content") c (codes "requester") q h _ _
handle-IsRefused db₁ db₂ serde now (Request.user_details u q) h =
    at_keys serde (codes "user") u (codes "requester") q h _ _
handle-IsRefused db₁ db₂ serde now (Request.notification_count q a) h =
    at_key serde (codes "requester") q h _ _
handle-IsRefused db₁ db₂ serde now Request.users_count h = ground arith
handle-IsRefused db₁ db₂ serde now (Request.trending_hashtags w n) h =
    at_window serde (require_window-WindowVerdict serde w) h _ _
