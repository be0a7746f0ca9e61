-- ===== src/Api/Hidden.antt =====
-- What the handlers of K-webserver/src/api_handlers.rs do with rows that are flagged as blocked, and with
-- rows of which they show no text.
use k_indexer.Prelude.{
  ℕ, ◌-◌, ℤ, ◌≡◌, refl, ap, Bool, true, false, Option, none, some, List, [], ◌∷◌, map,
}
use k_indexer.Text.{Text, codes}
use k_indexer.Page.{PaginatedResult}
use k_indexer.Models.{KBroadcastRecord, ContentRecord, post, reply, vote, ServerUserPost}
use k_indexer.Models.Posts.{server_content}
use k_indexer.Api.{
  Result, ok, err, ◌>>=◌, ◌>>◌, DatabaseInterface, DatabaseResult, Serde, queried, serialized,
  query_options, require_public_key, require_id,
}
use k_indexer.Api.Users.{
  listed_user, active_user, blocked_by_requester, followed_by_requester, users_response,
  require_window, require_searched, get_users_paginated, get_most_active_users_paginated,
  search_users_paginated, get_blocked_users_paginated, get_followed_users_paginated,
  get_users_following_paginated, get_users_followers_paginated,
}
use k_indexer.Api.Details.{detailed_user, details_response, get_post_details, get_user_details}
use k_indexer.Api.Requests.{Request, handle}
use k_indexer.Api.Masking.{
  map_ok, map_items, map_some, rewrite_broadcast, rewrite_content, censor_user, censor_active_user,
  censor_details, is_flagged, censor_listed, censor_content, censor,
}

module _ (f : Text → Text) where
  listed_user-censor_user :
      (x : KBroadcastRecord × Bool × Bool) → listed_user (censor_user f x) ≡ listed_user x
  unfolding listed_user censor_user
  listed_user-censor_user (r, true, followed) = refl
  listed_user-censor_user (r, false, followed) = refl

  active_user-censor_active_user :
      (x : KBroadcastRecord × Bool × Bool × ℤ)
      → active_user (censor_active_user f x) ≡ active_user x
  unfolding active_user censor_active_user
  active_user-censor_active_user (r, true, followed, n) = refl
  active_user-censor_active_user (r, false, followed, n) = refl

  blocked_by_requester-rewrite_broadcast :
      (r : KBroadcastRecord) → blocked_by_requester (rewrite_broadcast f r) ≡ blocked_by_requester r
  unfolding blocked_by_requester rewrite_broadcast
  blocked_by_requester-rewrite_broadcast r = refl

  followed_by_requester-censor_listed :
      (x : KBroadcastRecord × Bool)
      → followed_by_requester (censor_listed f x) ≡ followed_by_requester x
  unfolding followed_by_requester censor_listed
  followed_by_requester-censor_listed (r, followed) = refl

  followed_by_requester-rewrite_broadcast :
      (r : KBroadcastRecord)
      → followed_by_requester (rewrite_broadcast f r, true) ≡ followed_by_requester (r, true)
  unfolding followed_by_requester rewrite_broadcast
  followed_by_requester-rewrite_broadcast r = refl

  detailed_user-censor_details :
      (u : Text) (x : Option (KBroadcastRecord × Bool × Bool × ℤ × ℤ × ℤ))
      → detailed_user u (map_some (censor_details f) x) ≡ detailed_user u x
  unfolding detailed_user censor_details map_some
  detailed_user-censor_details u none = refl
  detailed_user-censor_details u (some (r, true, followed, m, n, o)) = refl
  detailed_user-censor_details u (some (r, false, followed, m, n, o)) = refl

  server_content-rewrite_content :
      (r : ContentRecord) → server_content (rewrite_content f r) true ≡ server_content r true
  unfolding server_content rewrite_content
  server_content-rewrite_content (post r) = refl
  server_content-rewrite_content (reply r) = refl
  server_content-rewrite_content (vote r) = refl

  details_response-censor_content :
      (serde : Serde) (x : Option (ContentRecord × Bool))
      → details_response serde (map_some (censor_content f) x) ≡ details_response serde x
  unfolding details_response censor_content map_some
  details_response-censor_content serde none = refl
  details_response-censor_content serde (some (r, true)) = rw (server_content-rewrite_content r)
  details_response-censor_content serde (some (r, false)) = refl

map-map {ℓ κ} :
    {A : Type ℓ} {B : Type κ} (u : A → B) (g : A → A)
    → ((a : A) → u (g a) ≡ u a)
    → (xs : List A) → map u (map g xs) ≡ map u xs
map-map u g h [] = refl
map-map u g h (x ∷ xs) = rw (h x, map-map u g h xs)

-- A change that an answer does not show makes no difference behind a query.
queried-map_ok {ℓ} :
    {A : Type ℓ} (serde : Serde) (k : A → Result Text Text) (g : A → A)
    → ((a : A) → k (g a) ≡ k a)
    → (q : DatabaseResult A) → (queried serde (map_ok g q) >>= k) ≡ (queried serde q >>= k)
unfolding queried map_ok ◌>>=◌
queried-map_ok serde k g h (ok a) = h a
queried-map_ok serde k g h (err e) = refl

users_response-map_items {ℓ} :
    {A : Type ℓ} (serde : Serde) (u : A → ServerUserPost) (g : A → A)
    → ((a : A) → u (g a) ≡ u a)
    → (p : PaginatedResult A) → users_response serde u (map_items g p) ≡ users_response serde u p
unfolding users_response map_items
users_response-map_items serde u g h p = rw (map-map u g h p.items)

queried-map_items {ℓ} :
    {A : Type ℓ} (serde : Serde) (u : A → ServerUserPost) (g : A → A)
    → ((a : A) → u (g a) ≡ u a)
    → (q : DatabaseResult (PaginatedResult A))
    → (queried serde (map_ok (map_items g) q) >>= users_response serde u)
      ≡ (queried serde q >>= users_response serde u)
queried-map_items serde u g h =
    queried-map_ok serde (users_response serde u) (map_items g)
      (users_response-map_items serde u g h)

-- A change behind the check of the requester's key.
behind_key :
    (serde : Serde) (key : Text) {x y : Result Text Text}
    → x ≡ y
    → (require_public_key serde (codes "requester") key >> x)
      ≡ (require_public_key serde (codes "requester") key >> y)
behind_key serde key = ap (λ x. require_public_key serde (codes "requester") key >> x)

-- The answers of the handlers whose queries flag rows or show users alone: no answer with a list of users, the
-- details of a user or the details of a content depends on the message of a row that is flagged as blocked,
-- nor one with blocked or followed users or followers on the message of any row. A text that another row
-- quotes is no such message.
pub handle-censor :
    (f : Text → Text) (db : DatabaseInterface) (serde : Serde) (now : ℕ) (r : Request)
    → is_flagged r ≡ true
    → handle (censor f db) serde now r ≡ handle db serde now r
unfolding handle censor is_flagged get_users_paginated get_most_active_users_paginated
    search_users_paginated get_blocked_users_paginated get_followed_users_paginated
    get_users_following_paginated get_users_followers_paginated get_post_details get_user_details
handle-censor f db serde now (Request.users n q b a) h =
    queried-map_items serde listed_user (censor_user f) (listed_user-censor_user f) _
handle-censor f db serde now (Request.most_active_users n q w b a) h =
    ap (λ k. require_window serde w >>= k)
      (λ i millis.
        queried-map_items serde active_user (censor_active_user f)
          (active_user-censor_active_user f)
          (db.get_most_active_users q (query_options n b a) (now - millis) now) i)
handle-censor f db serde now (Request.search_users n q b a k m) h =
    ap (λ x. require_searched serde k >> x)
      (queried-map_items serde listed_user (censor_user f) (listed_user-censor_user f) _)
handle-censor f db serde now (Request.blocked_users q n b a) h = behind_key serde q (
    queried-map_items serde blocked_by_requester (rewrite_broadcast f)
      (blocked_by_requester-rewrite_broadcast f) _)
handle-censor f db serde now (Request.followed_users q n b a) h = behind_key serde q (
    queried-map_items serde (λ r. followed_by_requester (r, true)) (rewrite_broadcast f)
      (followed_by_requester-rewrite_broadcast f) _)
handle-censor f db serde now (Request.users_following q u n b a) h = behind_key serde q (
    ap (λ x. require_public_key serde (codes "user") u >> x)
      (queried-map_items serde followed_by_requester (censor_listed f)
        (followed_by_requester-censor_listed f) _))
handle-censor f db serde now (Request.users_followers q u n b a) h = behind_key serde q (
    ap (λ x. require_public_key serde (codes "user") u >> x)
      (queried-map_items serde followed_by_requester (censor_listed f)
        (followed_by_requester-censor_listed f) _))
handle-censor f db serde now (Request.post_details c q) h =
    ap (λ x. require_id serde (codes "content") c >> x)
      (behind_key serde q (
        queried-map_ok serde (details_response serde) (map_some (censor_content f))
          (details_response-censor_content f serde) _))
handle-censor f db serde now (Request.user_details u q) h =
    ap (λ x. require_public_key serde (codes "user") u >> x)
      (behind_key serde q (
        queried-map_ok serde (λ b. serialized serde serde.user_post (detailed_user u b))
          (map_some (censor_details f))
          (λ b. ap (serialized serde serde.user_post) (detailed_user-censor_details f u b)) _))
handle-censor f db serde now r h = absurd (cc)
