-- ===== src/Api/Masking.antt =====
-- A database whose rows are those of another, but for the messages of rows that are flagged as
-- blocked, and of the rows behind lists of blocked and of followed users and of followers. The flag of a
-- row says that the requester blocks its sender. A quoted text, `referenced_message`, stays as it is: the
-- handlers of K-webserver/src/api_handlers.rs show it whoever wrote it.
use k_indexer.Prelude.{ℤ, Bool, true, false, Option, none, some, map, if◌then◌else◌}
use k_indexer.Text.{Text}
use k_indexer.Page.{PaginatedResult}
use k_indexer.Models.{KBroadcastRecord, ContentRecord, post, reply, vote}
use k_indexer.Api.Requests.{Request}
use k_indexer.Api.{ok, err, DatabaseResult, DatabaseInterface}

-- The requests whose queries flag rows, or are for users of whom no text is shown.
unfoldable pub is_flagged : Request → Bool
is_flagged (Request.users n q b a) = true
is_flagged (Request.most_active_users n q w b a) = true
is_flagged (Request.search_users n q b a k m) = true
is_flagged (Request.blocked_users q n b a) = true
is_flagged (Request.followed_users q n b a) = true
is_flagged (Request.users_following q u n b a) = true
is_flagged (Request.users_followers q u n b a) = true
is_flagged (Request.post_details c q) = true
is_flagged (Request.user_details u q) = true
is_flagged _ = false

unfoldable pub map_ok {ℓ κ} :
    {A : Type ℓ} {B : Type κ} → (A → B) → DatabaseResult A → DatabaseResult B
map_ok f (ok a) = ok (f a)
map_ok f (err e) = err e

unfoldable pub map_items {ℓ κ} :
    {A : Type ℓ} {B : Type κ} → (A → B) → PaginatedResult A → PaginatedResult B
map_items f p = record { items = map f p.items; pagination = p.pagination }

unfoldable pub map_some {ℓ κ} : {A : Type ℓ} {B : Type κ} → (A → B) → Option A → Option B
map_some f none = none
map_some f (some a) = some (f a)

module _ (f : Text → Text) where
  unfoldable pub rewrite_broadcast : KBroadcastRecord → KBroadcastRecord
  rewrite_broadcast r = record r { base64_encoded_message = f r.base64_encoded_message }

  unfoldable pub rewrite_content : ContentRecord → ContentRecord
  rewrite_content (post r) = post (record r { base64_encoded_message = f r.base64_encoded_message })
  rewrite_content (reply r) =
      reply (record r { base64_encoded_message = f r.base64_encoded_message })
  rewrite_content (vote r) = vote r

  unfoldable pub censor_user : KBroadcastRecord × Bool × Bool → KBroadcastRecord × Bool × Bool
  unfolding rewrite_broadcast
  censor_user (r, is_blocked, is_followed) =
      (if is_blocked then rewrite_broadcast r else r, is_blocked, is_followed)

  unfoldable pub censor_active_user :
      KBroadcastRecord × Bool × Bool × ℤ → KBroadcastRecord × Bool × Bool × ℤ
  unfolding rewrite_broadcast
  censor_active_user (r, is_blocked, is_followed, n) =
      (if is_blocked then rewrite_broadcast r else r, is_blocked, is_followed, n)

  unfoldable pub censor_details :
      KBroadcastRecord × Bool × Bool × ℤ × ℤ × ℤ → KBroadcastRecord × Bool × Bool × ℤ × ℤ × ℤ
  unfolding rewrite_broadcast
  censor_details (r, is_blocked, is_followed, m, n, o) =
      (if is_blocked then rewrite_broadcast r else r, is_blocked, is_followed, m, n, o)

  unfoldable pub censor_listed : KBroadcastRecord × Bool → KBroadcastRecord × Bool
  unfolding rewrite_broadcast
  censor_listed (r, is_followed) = (rewrite_broadcast r, is_followed)

  unfoldable pub censor_content : ContentRecord × Bool → ContentRecord × Bool
  unfolding rewrite_content
  censor_content (r, is_blocked) = (if is_blocked then rewrite_content r else r, is_blocked)

  unfoldable pub censor : DatabaseInterface → DatabaseInterface
  censor db = record db {
    get_all_users = λ q o. map_ok (map_items censor_user) (db.get_all_users q o);
    get_most_active_users = λ q o from_time to_time.
        map_ok (map_items censor_active_user) (db.get_most_active_users q o from_time to_time);
    search_users = λ q o k n. map_ok (map_items censor_user) (db.search_users q o k n);
    get_user_details = λ u q. map_ok (map_some censor_details) (db.get_user_details u q);
    get_blocked_users_by_requester =
        λ q o. map_ok (map_items rewrite_broadcast) (db.get_blocked_users_by_requester q o);
    get_followed_users_by_requester =
        λ q o. map_ok (map_items rewrite_broadcast) (db.get_followed_users_by_requester q o);
    get_users_following = λ q u o. map_ok (map_items censor_listed) (db.get_users_following q u o);
    get_users_followers = λ q u o. map_ok (map_items censor_listed) (db.get_users_followers q u o);
    get_content_by_id = λ c q. map_ok (map_some censor_content) (db.get_content_by_id c q);
  }
