-- ===== src/Api/Guards/Answers.antt =====
-- When the handlers of K-webserver/src/api_handlers.rs answer a request.
use k_indexer.Prelude.{
  ℕ, ◌≡◌, subst, ap, ◌∙◌, refl, Bool, true, false, ◌&&◌, Option, none, some, arith,
}
use k_indexer.Text.{Text, codes}
use k_indexer.Models.{ContentRecord}
use k_indexer.Models.Posts.{is_some}
use k_indexer.Api.{
  Result, ok, err, ◌>>=◌, ◌>>◌, DatabaseInterface, DatabaseResult, Codec, Serde, require_public_key,
  require_id, queried, serialized,
}
use k_indexer.Api.Posts.{
  get_posts_paginated, get_posts_watching_paginated, get_content_following_paginated,
  get_hashtag_content_paginated, get_replies_paginated, get_user_replies_paginated,
  get_mentions_paginated, get_notifications_paginated,
}
use k_indexer.Api.Users.{
  get_users_paginated, get_most_active_users_paginated, search_users_paginated,
  get_blocked_users_paginated, get_followed_users_paginated, get_users_following_paginated,
  get_users_followers_paginated,
}
use k_indexer.Api.Details.{
  details_response, get_post_details, get_user_details, get_notification_count, get_users_count,
  get_trending_hashtags,
}
use k_indexer.Api.Requests.{
  Request, handle, passes_checks, is_answered, is_public_key, is_id, is_searched, is_ok, finds,
}
use k_indexer.Api.Guards.Checks.{
  ErrorCode, Verdict, WindowVerdict, require_public_key-Verdict, require_id-Verdict,
  require_searched-Verdict, require_window-WindowVerdict,
}

-- The JSON library writes every value.
abbrev pub Writes {ℓ} : {A : Type ℓ} → Codec A → Type ℓ
Writes {A} codec = (a : A) → is_some (codec.to_string a) ≡ true

pub record IsTotal (serde : Serde) : Type 0 where
  pub posts : Writes serde.posts
  pub replies : Writes serde.replies
  pub users : Writes serde.users
  pub notifications : Writes serde.notifications
  pub post_details : Writes serde.post_details
  pub user_post : Writes serde.user_post
  pub count : Writes serde.count
  pub trending : Writes serde.trending

and_assoc : (a b c : Bool) → (a && (b && c)) ≡ (a && b && c)
and_assoc true b c = refl
and_assoc false b c = refl

module _ (serde : Serde) where
  is_ok-serialized {ℓ} :
      {A : Type ℓ} (codec : Codec A)
      → Writes codec
      → (a : A) → is_ok (serialized serde codec a) ≡ true
  unfolding serialized
  is_ok-serialized codec h a = ground (arith, h a)

  is_ok-queried {ℓ} :
      {A : Type ℓ} (q : DatabaseResult A) (f : A → Result Text Text)
      → ((a : A) → is_ok (f a) ≡ true)
      → is_ok (queried serde q >>= f) ≡ is_ok q
  unfolding queried ◌>>=◌
  is_ok-queried (ok a) f h = h a
  is_ok-queried (err _) f h = refl

  is_ok-after :
      {code : ErrorCode} {b : Bool} {m : Result Text (Unit {0})}
      → Verdict serde code b m
      → (k : Result Text Text) → is_ok (m >> k) ≡ (b && is_ok k)
  unfolding ◌>>◌
  is_ok-after Verdict.accepts k = refl
  is_ok-after (Verdict.refuses _) k = refl

  is_ok-key :
      (name key : Text) (k : Result Text Text) (c : Bool)
      → is_ok k ≡ c
      → is_ok (require_public_key serde name key >> k) ≡ (is_public_key key && c)
  is_ok-key name key k c h =
      subst (λ c. is_ok (require_public_key serde name key >> k) ≡ (is_public_key key && c)) h
        (is_ok-after (require_public_key-Verdict serde name key) k)

  is_ok-keys :
      (name key name' key' : Text) (k : Result Text Text) (c : Bool)
      → is_ok k ≡ c
      → is_ok (require_public_key serde name key >> (require_public_key serde name' key' >> k))
        ≡ (is_public_key key && is_public_key key' && c)
  is_ok-keys name key name' key' k c h =
      is_ok-key name key (require_public_key serde name' key' >> k) _ (is_ok-key name' key' k c h)
      ∙ and_assoc (is_public_key key) (is_public_key key') c

  is_ok-id :
      (name id name' key : Text) (k : Result Text Text) (c : Bool)
      → is_ok k ≡ c
      → is_ok (require_id serde name id >> (require_public_key serde name' key >> k))
        ≡ (is_id id && is_public_key key && c)
  is_ok-id name id name' key k c h =
      is_ok-after (require_id-Verdict serde name id) (require_public_key serde name' key >> k)
      ∙ ap (λ c. is_id id && c) (is_ok-key name' key k c h)
      ∙ and_assoc (is_id id) (is_public_key key) c

  -- A handler that asks for a window first; `c` says whether its query for that length is answered.
  is_ok-window :
      {o : Option ℕ} {m : Result Text ℕ}
      → WindowVerdict serde o m
      → (k : ℕ → Result Text Text) (c : ℕ → Bool) → ((millis : ℕ) → is_ok (k millis) ≡ c millis)
      → is_ok (m >>= k) ≡ (is_some o && elim o [ none ↦ false | some millis ↦ c millis ])
  unfolding ◌>>=◌
  is_ok-window (WindowVerdict.accepts millis) k c h = h millis
  is_ok-window (WindowVerdict.refuses _) k c h = refl

  is_ok-details :
      Writes serde.post_details
      → (q : DatabaseResult (Option (ContentRecord × Bool)))
      → is_ok (queried serde q >>= details_response serde) ≡ finds q
  unfolding queried ◌>>=◌ details_response
  is_ok-details h (ok none) = refl
  is_ok-details h (ok (some (r, is_blocked))) = is_ok-serialized serde.post_details h _
  is_ok-details h (err _) = refl

-- Where the JSON library writes every answer, a request is answered exactly if its arguments pass the checks
-- of its handler and the database answers its query, with the content where the query is for one; for the
-- details of a user that the database does not find there is an answer too.
pub is_ok-handle :
    (db : DatabaseInterface) (serde : Serde) (now : ℕ)
    → IsTotal serde
    → (r : Request) → is_ok (handle db serde now r) ≡ (passes_checks r && is_answered db now r)
unfolding handle passes_checks is_answered get_posts_paginated get_posts_watching_paginated
    get_content_following_paginated get_hashtag_content_paginated get_replies_paginated
    get_user_replies_paginated get_mentions_paginated get_notifications_paginated
    get_users_paginated get_most_active_users_paginated search_users_paginated
    get_blocked_users_paginated get_followed_users_paginated get_users_following_paginated
    get_users_followers_paginated get_post_details get_user_details get_notification_count
    get_users_count get_trending_hashtags
is_ok-handle db serde now t (Request.posts u q n b a) =
    is_ok-keys serde (codes "user") u (codes "requester") q _ _
      (is_ok-queried serde _ _ (λ _. is_ok-serialized serde serde.posts t.posts _))
is_ok-handle db serde now t (Request.posts_watching q n b a) =
    is_ok-key serde (codes "requester") q _ _
      (is_ok-queried serde _ _ (λ _. is_ok-serialized serde serde.posts t.posts _))
is_ok-handle db serde now t (Request.content_following q n b a) =
    is_ok-key serde (codes "requester") q _ _
      (is_ok-queried serde _ _ (λ _. is_ok-serialized serde serde.posts t.posts _))
is_ok-handle db serde now t (Request.hashtag_content tag q n b a) =
    is_ok-key serde (codes "requester") q _ _
      (is_ok-queried serde _ _ (λ _. is_ok-serialized serde serde.posts t.posts _))
is_ok-handle db serde now t (Request.replies p q n b a) =
    is_ok-id serde (codes "post") p (codes "requester") q _ _
      (is_ok-queried serde _ _ (λ _. is_ok-serialized serde serde.replies t.replies _))
is_ok-handle db serde now t (Request.user_replies u q n b a) =
    is_ok-keys serde (codes "user") u (codes "requester") q _ _
      (is_ok-queried serde _ _ (λ _. is_ok-serialized serde serde.replies t.replies _))
is_ok-handle db serde now t (Request.mentions u q n b a) =
    is_ok-keys serde (codes "user") u (codes "requester") q _ _
      (is_ok-queried serde _ _ (λ _. is_ok-serialized serde serde.posts t.posts _))
is_ok-handle db serde now t (Request.notifications q n b a) =
    is_ok-key serde (codes "requester") q _ _
      (is_ok-queried serde _ _ (λ _. is_ok-serialized serde serde.notifications t.notifications _))
is_ok-handle db serde now t (Request.users n q b a) =
    is_ok-queried serde _ _ (λ _. is_ok-serialized serde serde.users t.users _)
is_ok-handle db serde now t (Request.most_active_users n q w b a) =
    is_ok-window serde (require_window-WindowVerdict serde w) _ _
      (λ millis. is_ok-queried serde _ _ (λ _. is_ok-serialized serde serde.users t.users _))
is_ok-handle db serde now t (Request.search_users n q b a k m) =
    is_ok-after serde (require_searched-Verdict serde k) _
    ∙ ap (λ c. is_searched k && c)
        (is_ok-queried serde _ _ (λ _. is_ok-serialized serde serde.users t.users _))
is_ok-handle db serde now t (Request.blocked_users q n b a) =
    is_ok-key serde (codes "requester") q _ _
      (is_ok-queried serde _ _ (λ _. is_ok-serialized serde serde.users t.users _))
is_ok-handle db serde now t (Request.followed_users q n b a) =
    is_ok-key serde (codes "requester") q _ _
      (is_ok-queried serde _ _ (λ _. is_ok-serialized serde serde.users t.users _))
is_ok-handle db serde now t (Request.users_following q u n b a) =
    is_ok-keys serde (codes "requester") q (codes "user") u _ _
      (is_ok-queried serde _ _ (λ _. is_ok-serialized serde serde.users t.users _))
is_ok-handle db serde now t (Request.users_followers q u n b a) =
    is_ok-keys serde (codes "requester") q (codes "user") u _ _
      (is_ok-queried serde _ _ (λ _. is_ok-serialized serde serde.users t.users _))
is_ok-handle db serde now t (Request.post_details c q) =
    is_ok-id serde (codes "content") c (codes "requester") q _ _
      (is_ok-details serde t.post_details _)
is_ok-handle db serde now t (Request.user_details u q) =
    is_ok-keys serde (codes "user") u (codes "requester") q _ _
      (is_ok-queried serde _ _ (λ _. is_ok-serialized serde serde.user_post t.user_post _))
is_ok-handle db serde now t (Request.notification_count q a) =
    is_ok-key serde (codes "requester") q _ _
      (is_ok-queried serde _ _ (λ _. is_ok-serialized serde serde.count t.count _))
is_ok-handle db serde now t Request.users_count =
    is_ok-queried serde _ _ (λ _. is_ok-serialized serde serde.count t.count _)
is_ok-handle db serde now t (Request.trending_hashtags w n) =
    is_ok-window serde (require_window-WindowVerdict serde w) _ _
      (λ millis. is_ok-queried serde _ _ (λ _. is_ok-serialized serde serde.trending t.trending _))
