-- ===== src/Api/Guards/Errors.antt =====
-- Which errors a handler of K-webserver/src/api_handlers.rs may give.
use k_indexer.Prelude.{ℕ, ◌≡◌, refl, Bool, true, false, Option, none, some}
use k_indexer.Text.{Text, codes}
use k_indexer.Models.{ContentRecord}
use k_indexer.Api.{
  Result, ok, err, ◌>>=◌, ◌>>◌, DatabaseInterface, DatabaseResult, Codec, Serde,
  create_error_response, queried, serialized,
}
use k_indexer.Api.Posts.{
  get_posts_paginated, get_posts_watching_paginated, get_content_following_paginated,
  get_hashtag_content_paginated, get_replies_paginated, get_user_replies_paginated,
  get_mentions_paginated, get_notifications_paginated,
}
use k_indexer.Api.Users.{
  get_users_paginated, get_most_active_users_paginated, search_users_paginated,
  get_blocked_users_paginated, get_followed_users_paginated, get_users_following_paginated,
  get_users_followers_paginated,
}
use k_indexer.Api.Details.{
  details_response, get_post_details, get_user_details, get_notification_count, get_users_count,
  get_trending_hashtags,
}
use k_indexer.Api.Requests.{Request, handle}
use k_indexer.Api.Guards.Checks.{
  ErrorCode, user_key, post_id, parameter, missing, database, serialization, code_text, Verdict,
  WindowVerdict, require_public_key-Verdict, require_id-Verdict, require_searched-Verdict,
  require_window-WindowVerdict,
}

-- The codes by the arguments that a handler checks.
abbrev pub plain : ErrorCode → Bool
plain database = true
plain serialization = true
plain _ = false

abbrev pub keys : ErrorCode → Bool
keys user_key = true
keys c = plain c

abbrev pub ids : ErrorCode → Bool
ids post_id = true
ids c = keys c

abbrev pub details : ErrorCode → Bool
details missing = true
details c = ids c

abbrev pub windows : ErrorCode → Bool
windows parameter = true
windows c = plain c

-- A result is an answer, or an error with one of some codes.
pub data Fails (serde : Serde) (codes : ErrorCode → Bool) : Result Text Text → Type 0 where
  answers : (json : Text) → Fails serde codes (ok json)
  fails :
      (message : Text) (code : ErrorCode)
      → codes code ≡ true
      → Fails serde codes (err (create_error_response serde message (code_text code)))

module _ (serde : Serde) (codes : ErrorCode → Bool) where
  Fails-after :
      {code : ErrorCode} {b : Bool} {m : Result Text (Unit {0})} {k : Result Text Text}
      → codes code ≡ true
      → Verdict serde code b m
      → Fails serde codes k
      → Fails serde codes (m >> k)
  unfolding ◌>>◌
  Fails-after h Verdict.accepts f = f
  Fails-after h (Verdict.refuses message) f = fails message _ h

  Fails-window :
      {o : Option ℕ} {m : Result Text ℕ}
      → codes parameter ≡ true
      → WindowVerdict serde o m
      → {k : ℕ → Result Text Text} → ((millis : ℕ) → Fails serde codes (k millis))
      → Fails serde codes (m >>= k)
  unfolding ◌>>=◌
  Fails-window h (WindowVerdict.accepts millis) f = f millis
  Fails-window h (WindowVerdict.refuses message) f = fails message parameter h

  Fails-queried {ℓ} :
      {A : Type ℓ}
      → codes database ≡ true
      → (q : DatabaseResult A) {k : A → Result Text Text} → ((a : A) → Fails serde codes (k a))
      → Fails serde codes (queried serde q >>= k)
  unfolding queried ◌>>=◌
  Fails-queried h (ok a) f = f a
  Fails-queried h (err e) f = fails _ database h

  Fails-serialized {ℓ} :
      {A : Type ℓ} (codec : Codec A)
      → codes serialization ≡ true
      → (a : A) → Fails serde codes (serialized serde codec a)
  unfolding serialized
  Fails-serialized codec h a = go (codec.to_string a)
    where
      go :
          (o : Option Text)
          → Fails serde codes (elim o [
            | some json ↦ ok json
            | none ↦ err (
                create_error_response serde
                  (k_indexer.Text.codes "Internal server error during serialization")
                  (k_indexer.Text.codes "SERIALIZATION_ERROR"))
          ])
      go none = fails _ serialization h
      go (some json) = answers json

Fails-details :
    (serde : Serde) (q : DatabaseResult (Option (ContentRecord × Bool)))
    → Fails serde details (queried serde q >>= details_response serde)
unfolding details_response
Fails-details serde q = Fails-queried serde details refl q (λ x. go x)
  where
    go : (x : Option (ContentRecord × Bool)) → Fails serde details (details_response serde x)
    go none = fails _ missing refl
    go (some (r, is_blocked)) = Fails-serialized serde details serde.post_details refl _

-- The errors that a handler may give.
unfoldable pub errors_of : Request → ErrorCode → Bool
errors_of (Request.posts _ _ _ _ _) = keys
errors_of (Request.posts_watching _ _ _ _) = keys
errors_of (Request.content_following _ _ _ _) = keys
errors_of (Request.hashtag_content _ _ _ _ _) = keys
errors_of (Request.replies _ _ _ _ _) = ids
errors_of (Request.user_replies _ _ _ _ _) = keys
errors_of (Request.mentions _ _ _ _ _) = keys
errors_of (Request.notifications _ _ _ _) = keys
errors_of (Request.users _ _ _ _) = plain
errors_of (Request.most_active_users _ _ _ _ _) = windows
errors_of (Request.search_users _ _ _ _ _ _) = keys
errors_of (Request.blocked_users _ _ _ _) = keys
errors_of (Request.followed_users _ _ _ _) = keys
errors_of (Request.users_following _ _ _ _ _) = keys
errors_of (Request.users_followers _ _ _ _ _) = keys
errors_of (Request.post_details _ _) = details
errors_of (Request.user_details _ _) = keys
errors_of (Request.notification_count _ _) = keys
errors_of Request.users_count = plain
errors_of (Request.trending_hashtags _ _) = windows

-- A handler answers, or errs with a code of its list: that of a key, an id or a window that it checks, of a
-- content that is missing, of the database or of the serialisation. No list has a code for a user that is
-- missing.
pub handle-Fails :
    (db : DatabaseInterface) (serde : Serde) (now : ℕ) (r : Request)
    → Fails serde (errors_of r) (handle db serde now r)
unfolding handle errors_of get_posts_paginated get_posts_watching_paginated
    get_content_following_paginated get_hashtag_content_paginated get_replies_paginated
    get_user_replies_paginated get_mentions_paginated get_notifications_paginated
    get_users_paginated get_most_active_users_paginated search_users_paginated
    get_blocked_users_paginated get_followed_users_paginated get_users_following_paginated
    get_users_followers_paginated get_post_details get_user_details get_notification_count
    get_users_count get_trending_hashtags
handle-Fails db serde now (Request.posts u q n b a) =
    Fails-after serde keys refl (require_public_key-Verdict serde (codes "user") u) (
      Fails-after serde keys refl (require_public_key-Verdict serde (codes "requester") q)
        (Fails-queried serde keys refl _ (λ _. Fails-serialized serde keys serde.posts refl _)))
handle-Fails db serde now (Request.posts_watching q n b a) =
    Fails-after serde keys refl (require_public_key-Verdict serde (codes "requester") q)
      (Fails-queried serde keys refl _ (λ _. Fails-serialized serde keys serde.posts refl _))
handle-Fails db serde now (Request.content_following q n b a) =
    Fails-after serde keys refl (require_public_key-Verdict serde (codes "requester") q)
      (Fails-queried serde keys refl _ (λ _. Fails-serialized serde keys serde.posts refl _))
handle-Fails db serde now (Request.hashtag_content tag q n b a) =
    Fails-after serde keys refl (require_public_key-Verdict serde (codes "requester") q)
      (Fails-queried serde keys refl _ (λ _. Fails-serialized serde keys serde.posts refl _))
handle-Fails db serde now (Request.replies p q n b a) =
    Fails-after serde ids refl (require_id-Verdict serde (codes "post") p) (
      Fails-after serde ids refl (require_public_key-Verdict serde (codes "requester") q)
        (Fails-queried serde ids refl _ (λ _. Fails-serialized serde ids serde.replies refl _)))
handle-Fails db serde now (Request.user_replies u q n b a) =
    Fails-after serde keys refl (require_public_key-Verdict serde (codes "user") u) (
      Fails-after serde keys refl (require_public_key-Verdict serde (codes "requester") q)
        (Fails-queried serde keys refl _ (λ _. Fails-serialized serde keys serde.replies refl _)))
handle-Fails db serde now (Request.mentions u q n b a) =
    Fails-after serde keys refl (require_public_key-Verdict serde (codes "user") u) (
      Fails-after serde keys refl (require_public_key-Verdict serde (codes "requester") q)
        (Fails-queried serde keys refl _ (λ _. Fails-serialized serde keys serde.posts refl _)))
handle-Fails db serde now (Request.notifications q n b a) =
    Fails-after serde keys refl (require_public_key-Verdict serde (codes "requester") q) (
      Fails-queried serde keys refl _ (λ _. Fails-serialized serde keys serde.notifications refl _))
handle-Fails db serde now (Request.users n q b a) =
    Fails-queried serde plain refl _ (λ _. Fails-serialized serde plain serde.users refl _)
handle-Fails db serde now (Request.most_active_users n q w b a) =
    Fails-window serde windows refl (require_window-WindowVerdict serde w) (λ millis.
      Fails-queried serde windows refl _ (λ _. Fails-serialized serde windows serde.users refl _))
handle-Fails db serde now (Request.search_users n q b a k m) =
    Fails-after serde keys refl (require_searched-Verdict serde k)
      (Fails-queried serde keys refl _ (λ _. Fails-serialized serde keys serde.users refl _))
handle-Fails db serde now (Request.blocked_users q n b a) =
    Fails-after serde keys refl (require_public_key-Verdict serde (codes "requester") q)
      (Fails-queried serde keys refl _ (λ _. Fails-serialized serde keys serde.users refl _))
handle-Fails db serde now (Request.followed_users q n b a) =
    Fails-after serde keys refl (require_public_key-Verdict serde (codes "requester") q)
      (Fails-queried serde keys refl _ (λ _. Fails-serialized serde keys serde.users refl _))
handle-Fails db serde now (Request.users_following q u n b a) =
    Fails-after serde keys refl (require_public_key-Verdict serde (codes "requester") q) (
      Fails-after serde keys refl (require_public_key-Verdict serde (codes "user") u)
        (Fails-queried serde keys refl _ (λ _. Fails-serialized serde keys serde.users refl _)))
handle-Fails db serde now (Request.users_followers q u n b a) =
    Fails-after serde keys refl (require_public_key-Verdict serde (codes "requester") q) (
      Fails-after serde keys refl (require_public_key-Verdict serde (codes "user") u)
        (Fails-queried serde keys refl _ (λ _. Fails-serialized serde keys serde.users refl _)))
handle-Fails db serde now (Request.post_details c q) =
    Fails-after serde details refl (require_id-Verdict serde (codes "content") c) (
      Fails-after serde details refl (require_public_key-Verdict serde (codes "requester") q)
        (Fails-details serde _))
handle-Fails db serde now (Request.user_details u q) =
    Fails-after serde keys refl (require_public_key-Verdict serde (codes "user") u) (
      Fails-after serde keys refl (require_public_key-Verdict serde (codes "requester") q)
        (Fails-queried serde keys refl _ (λ _. Fails-serialized serde keys serde.user_post refl _)))
handle-Fails db serde now (Request.notification_count q a) =
    Fails-after serde keys refl (require_public_key-Verdict serde (codes "requester") q)
      (Fails-queried serde keys refl _ (λ _. Fails-serialized serde keys serde.count refl _))
handle-Fails db serde now Request.users_count =
    Fails-queried serde plain refl _ (λ _. Fails-serialized serde plain serde.count refl _)
handle-Fails db serde now (Request.trending_hashtags w n) =
    Fails-window serde windows refl (require_window-WindowVerdict serde w) (λ millis.
      Fails-queried serde windows refl _
        (λ _. Fails-serialized serde windows serde.trending refl _))
