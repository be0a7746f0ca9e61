-- ===== src/Api/Users.antt =====
-- The handlers of K-webserver/src/api_handlers.rs that answer with pages of users. The assignments to
-- the answer that is made of a record are those of the source. `now` is the system's clock, in
-- milliseconds.
use k_indexer.Prelude.{
  ℕ, ℤ, ◌-◌, Bool, true, not, ◌&&◌, Option, none, some, [], if◌then◌else◌, map, drop, ◌==◌,
}
use k_indexer.Text.{Text, codes, text_eq, byte_len, starts_with}
use k_indexer.Page.{PaginatedResult}
use k_indexer.Models.{KBroadcastRecord, ServerUserPost}
use k_indexer.Models.UserPosts.{from_k_broadcast_record, from_k_broadcast_record_with_block_status}
use k_indexer.Api.{
  Result, ok, err, ◌>>=◌, ◌>>◌, DatabaseInterface, Serde, create_error_response, refuse_if,
  require_public_key, query_options, queried, serialized,
}

-- The nickname and the image, once more.
abbrev pub enriched : KBroadcastRecord → ServerUserPost → ServerUserPost
enriched r p = record p {
  user_nickname = some r.base64_encoded_nickname;
  user_profile_image = r.base64_encoded_profile_image;
}

unfoldable pub listed_user : KBroadcastRecord × Bool × Bool → ServerUserPost
unfolding from_k_broadcast_record_with_block_status
listed_user (r, is_blocked, is_followed) =
    record (enriched r (from_k_broadcast_record_with_block_status r is_blocked)) {
      followed_user = some is_followed;
    }

unfoldable pub active_user : KBroadcastRecord × Bool × Bool × ℤ → ServerUserPost
unfolding listed_user
active_user (r, is_blocked, is_followed, content_count) =
    record (listed_user (r, is_blocked, is_followed)) { contents_count = some content_count }

unfoldable pub blocked_by_requester : KBroadcastRecord → ServerUserPost
unfolding from_k_broadcast_record
blocked_by_requester r = record (enriched r (from_k_broadcast_record r)) {
  blocked_user = some true;
  post_content = [];
}

unfoldable pub followed_by_requester : KBroadcastRecord × Bool → ServerUserPost
unfolding from_k_broadcast_record
followed_by_requester (r, is_followed_by_requester) =
    record (enriched r (from_k_broadcast_record r)) {
      followed_user = some is_followed_by_requester;
      post_content = [];
    }

-- The milliseconds of a window.
unfoldable pub window_millis : Text → Option ℕ
window_millis time_window =
    if text_eq time_window (codes "1h")
    then some 3600000
    else if text_eq time_window (codes "6h")
    then some 21600000
    else if text_eq time_window (codes "24h")
    then some 86400000
    else if text_eq time_window (codes "7d")
    then some 604800000
    else if text_eq time_window (codes "30d")
    then some 2592000000
    else none

unfoldable pub require_window : Serde → Text → Result Text ℕ
unfolding window_millis create_error_response
require_window serde time_window = elim (window_millis time_window) [
  | some millis ↦ ok millis
  | none ↦ err (
      create_error_response serde (codes "Invalid time window parameter")
        (codes "INVALID_PARAMETER"))
]

-- The two checks of the key that is searched for.
unfoldable pub require_searched : Serde → Option Text → Result Text (Unit {0})
unfolding create_error_response
require_searched serde none = ok tt
require_searched serde (some pubkey) = do
  refuse_if serde (not (byte_len pubkey == 66))
      (codes "Invalid searched user public key format. Must be 66 hex characters.")
      (codes "INVALID_USER_KEY")
  refuse_if serde (not (starts_with pubkey (codes "02")) && not (starts_with pubkey (codes "03")))
      (codes "Invalid searched user public key prefix. Must start with 02 or 03.")
      (codes "INVALID_USER_KEY")

-- `pk[2..]`, behind two characters of one byte each.
unfoldable pub without_prefix : Option Text → Option Text
without_prefix none = none
without_prefix (some pk) = some (drop 2 pk)

-- What each of the handlers does with a page, by what it makes of an item.
unfoldable pub users_response {ℓ} :
    {A : Type ℓ} → Serde → (A → ServerUserPost) → PaginatedResult A → Result Text Text
unfolding serialized
users_response serde user_post result =
    serialized serde serde.users
      (record { posts = map user_post result.items; pagination = result.pagination })

module _ (db : DatabaseInterface) (serde : Serde) where
  unfoldable pub get_users_paginated :
      (limit : ℕ) (requester_pubkey : Text) (before after : Option Text) → Result Text Text
  unfolding query_options queried listed_user users_response
  get_users_paginated limit requester_pubkey before after = do
    broadcasts_result ←
        queried serde (db.get_all_users requester_pubkey (query_options limit before after))
    users_response serde listed_user broadcasts_result

  unfoldable pub get_most_active_users_paginated :
      (now limit : ℕ) (requester_pubkey time_window : Text) (before after : Option Text)
      → Result Text Text
  unfolding require_window query_options queried active_user users_response
  get_most_active_users_paginated now limit requester_pubkey time_window before after = do
    millis ← require_window serde time_window
    result ← queried serde (
        db.get_most_active_users requester_pubkey (query_options limit before after) (now - millis)
          now)
    users_response serde active_user result

  unfoldable pub search_users_paginated :
      (limit : ℕ) (requester_pubkey : Text)
      (before after searched_user_pubkey searched_user_nickname : Option Text)
      → Result Text Text
  unfolding require_searched query_options without_prefix queried listed_user users_response
  search_users_paginated limit requester_pubkey before after searched_user_pubkey
        searched_user_nickname =
      do
        require_searched serde searched_user_pubkey
        broadcasts_result ← queried serde (
            db.search_users requester_pubkey (query_options limit before after)
              (without_prefix searched_user_pubkey) searched_user_nickname)
        users_response serde listed_user broadcasts_result

  unfoldable pub get_blocked_users_paginated :
      (requester_pubkey : Text) (limit : ℕ) (before after : Option Text) → Result Text Text
  unfolding require_public_key query_options queried blocked_by_requester users_response
  get_blocked_users_paginated requester_pubkey limit before after = do
    require_public_key serde (codes "requester") requester_pubkey
    broadcasts_result ←
        queried serde
          (db.get_blocked_users_by_requester requester_pubkey (query_options limit before after))
    users_response serde blocked_by_requester broadcasts_result

  unfoldable pub get_followed_users_paginated :
      (requester_pubkey : Text) (limit : ℕ) (before after : Option Text) → Result Text Text
  unfolding require_public_key query_options queried followed_by_requester users_response
  get_followed_users_paginated requester_pubkey limit before after = do
    require_public_key serde (codes "requester") requester_pubkey
    broadcasts_result ←
        queried serde
          (db.get_followed_users_by_requester requester_pubkey (query_options limit before after))
    users_response serde (λ r. followed_by_requester (r, true)) broadcasts_result

  unfoldable pub get_users_following_paginated :
      (requester_pubkey user_pubkey : Text) (limit : ℕ) (before after : Option Text)
      → Result Text Text
  unfolding require_public_key query_options queried followed_by_requester users_response
  get_users_following_paginated requester_pubkey user_pubkey limit before after = do
    require_public_key serde (codes "requester") requester_pubkey
    require_public_key serde (codes "user") user_pubkey
    broadcasts_result ←
        queried serde
          (db.get_users_following requester_pubkey user_pubkey (query_options limit before after))
    users_response serde followed_by_requester broadcasts_result

  unfoldable pub get_users_followers_paginated :
      (requester_pubkey user_pubkey : Text) (limit : ℕ) (before after : Option Text)
      → Result Text Text
  unfolding require_public_key query_options queried followed_by_requester users_response
  get_users_followers_paginated requester_pubkey user_pubkey limit before after = do
    require_public_key serde (codes "requester") requester_pubkey
    require_public_key serde (codes "user") user_pubkey
    broadcasts_result ←
        queried serde
          (db.get_users_followers requester_pubkey user_pubkey (query_options limit before after))
    users_response serde followed_by_requester broadcasts_result
