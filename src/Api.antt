-- ===== src/Api.antt =====
-- What the handlers of K-webserver/src/api_handlers.rs stand on: results, the trait of
-- K-webserver/src/database_trait.rs, the JSON of serde_json and the checks that the handlers make
-- first. The database is a parameter of the handlers: what each of its queries yields at the time of
-- the request. The handlers stand in the children.
pub mod Posts
pub mod Users
pub mod Details
pub mod Requests
pub mod Guards
pub mod Masking
pub mod Hidden
pub mod Tests
use k_indexer.Prelude.{
  ℕ, ℤ, Bool, true, false, not, ◌&&◌, ◌||◌, Option, none, some, List, ◌++◌, ◌==◌,
}
use k_indexer.Text.{Text, codes, byte_len, all, is_ascii_hexdigit, starts_with}
use k_indexer.Protocol.Messages.{unwrap_or}
use k_indexer.Page.{PaginatedResult}
use k_indexer.Models.{
  KBroadcastRecord, KPostRecord, KReplyRecord, ContentRecord, NotificationContentRecord,
  PaginatedPostsResponse, PaginatedRepliesResponse, PaginatedUsersResponse,
  PaginatedNotificationsResponse, PostDetailsResponse, ServerUserPost, TrendingHashtagsResponse,
  ApiError,
}

pub data Result {ℓ κ} (E : Type ℓ) (A : Type κ) : Type (ℓ ⊔ κ) where
  ok : A → Result E A
  err : E → Result E A

infixl 5 ◌>>=◌ ◌>>◌
unfoldable pub ◌>>=◌ {ℓ κ μ} :
    {E : Type ℓ} {A : Type κ} {B : Type μ} → Result E A → (A → Result E B) → Result E B
ok a >>= f = f a
err e >>= f = err e

unfoldable pub ◌>>◌ {ℓ κ} :
    {E : Type ℓ} {B : Type κ} → Result E (Unit {0}) → Result E B → Result E B
unfolding ◌>>=◌
m >> k = m >>= λ _. k

pub data DatabaseError : Type 0 where
  connection_error query_error serialization_error : Text → DatabaseError
  not_found : DatabaseError
  invalid_input : Text → DatabaseError

abbrev pub DatabaseResult {ℓ} : Type ℓ → Type ℓ
DatabaseResult A = Result DatabaseError A

pub record QueryOptions : Type 0 where
  pub limit : Option ℕ
  pub before : Option Text
  pub after : Option Text
  pub sort_descending : Bool

pub record DatabaseStats : Type 0 where
  pub broadcasts_count : ℤ
  pub posts_count : ℤ
  pub replies_count : ℤ
  pub quotes_count : ℤ
  pub votes_count : ℤ
  pub follows_count : ℤ
  pub blocks_count : ℤ

pub record DatabaseInterface : Type 0 where
  pub get_all_users :
      Text → QueryOptions → DatabaseResult (PaginatedResult (KBroadcastRecord × Bool × Bool))
  pub get_most_active_users :
      Text
      → QueryOptions
      → ℕ
      → ℕ
      → DatabaseResult (PaginatedResult (KBroadcastRecord × Bool × Bool × ℤ))
  pub search_users :
      Text
      → QueryOptions
      → Option Text
      → Option Text
      → DatabaseResult (PaginatedResult (KBroadcastRecord × Bool × Bool))
  pub get_user_details :
      Text → Text → DatabaseResult (Option (KBroadcastRecord × Bool × Bool × ℤ × ℤ × ℤ))
  pub get_blocked_users_by_requester :
      Text → QueryOptions → DatabaseResult (PaginatedResult KBroadcastRecord)
  pub get_followed_users_by_requester :
      Text → QueryOptions → DatabaseResult (PaginatedResult KBroadcastRecord)
  pub get_users_following :
      Text → Text → QueryOptions → DatabaseResult (PaginatedResult (KBroadcastRecord × Bool))
  pub get_users_followers :
      Text → Text → QueryOptions → DatabaseResult (PaginatedResult (KBroadcastRecord × Bool))
  pub get_all_posts : Text → QueryOptions → DatabaseResult (PaginatedResult KPostRecord)
  pub get_content_following : Text → QueryOptions → DatabaseResult (PaginatedResult KPostRecord)
  pub get_contents_mentioning_user :
      Text → Text → QueryOptions → DatabaseResult (PaginatedResult ContentRecord)
  pub get_replies_by_post_id :
      Text → Text → QueryOptions → DatabaseResult (PaginatedResult KReplyRecord)
  pub get_replies_by_user :
      Text → Text → QueryOptions → DatabaseResult (PaginatedResult KReplyRecord)
  pub get_posts_by_user : Text → Text → QueryOptions → DatabaseResult (PaginatedResult KPostRecord)
  pub get_notifications :
      Text → QueryOptions → DatabaseResult (PaginatedResult NotificationContentRecord)
  pub get_content_by_id : Text → Text → DatabaseResult (Option (ContentRecord × Bool))
  pub get_notification_count : Text → Option Text → DatabaseResult ℕ
  pub get_users_count : DatabaseResult ℕ
  pub get_network : DatabaseResult Text
  pub get_stats : DatabaseResult DatabaseStats
  pub get_hashtag_content :
      Text → Text → QueryOptions → DatabaseResult (PaginatedResult KPostRecord)
  pub get_trending_hashtags : ℕ → ℕ → ℕ → DatabaseResult (List (Text × ℕ))

-- `serde_json::to_string` and `serde_json::from_str` at a type.
pub record Codec {ℓ} (A : Type ℓ) : Type ℓ where
  pub to_string : A → Option Text
  pub from_str : Text → Option A

-- The JSON object of the two counting handlers.
pub record CountResponse : Type 0 where
  pub count : ℕ

pub record Serde : Type 0 where
  pub posts : Codec PaginatedPostsResponse
  pub replies : Codec PaginatedRepliesResponse
  pub users : Codec PaginatedUsersResponse
  pub notifications : Codec PaginatedNotificationsResponse
  pub post_details : Codec PostDetailsResponse
  pub user_post : Codec ServerUserPost
  pub count : Codec CountResponse
  pub trending : Codec TrendingHashtagsResponse
  pub api_error : Codec ApiError

unfoldable pub create_error_response : Serde → (message code : Text) → Text
create_error_response serde message code =
    unwrap_or
      (codes "{\"error\":\"Internal error creating error response\",\"code\":\"INTERNAL_ERROR\"}")
      (serde.api_error.to_string (record { error = message; code = code }))

-- `if … { return Err(self.create_error_response(message, code)); }`, for a test that must not hold.
abbrev pub refuse_if : Serde → Bool → (message code : Text) → Result Text (Unit {0})
refuse_if serde true message code = err (create_error_response serde message code)
refuse_if serde false message code = ok tt

-- The three checks of a compressed public key; `name` is the word that the messages use for it.
unfoldable pub require_public_key : Serde → (name key : Text) → Result Text (Unit {0})
unfolding create_error_response
require_public_key serde name key = do
  refuse_if serde (not (byte_len key == 66))
      (codes "Invalid " ++ name ++ codes " public key format. Must be 66 hex characters.")
      (codes "INVALID_USER_KEY")
  refuse_if serde (not (all is_ascii_hexdigit key))
      (codes "Invalid " ++ name ++ codes " public key format. Must contain only hex characters.")
      (codes "INVALID_USER_KEY")
  refuse_if serde (not (starts_with key (codes "02")) && not (starts_with key (codes "03")))
      (codes "Invalid "
        ++ name
        ++ codes " public key format. Compressed public key must start with 02 or 03.")
      (codes "INVALID_USER_KEY")

-- The two checks of a transaction id.
unfoldable pub require_id : Serde → (name id : Text) → Result Text (Unit {0})
unfolding create_error_response
require_id serde name id = do
  refuse_if serde (not (byte_len id == 64))
      (codes "Invalid " ++ name ++ codes " ID format. Must be 64 hex characters.")
      (codes "INVALID_POST_ID")
  refuse_if serde (not (all is_ascii_hexdigit id))
      (codes "Invalid " ++ name ++ codes " ID format. Must contain only hex characters.")
      (codes "INVALID_POST_ID")

unfoldable pub query_options : ℕ → (before after : Option Text) → QueryOptions
query_options limit before after = record {
  limit = some limit;
  before = before;
  after = after;
  sort_descending = true;
}

-- The answer of a query, or the error that stands for any of its errors.
unfoldable pub queried {ℓ} : {A : Type ℓ} → Serde → DatabaseResult A → Result Text A
unfolding create_error_response
queried serde (ok a) = ok a
queried serde (err e) = err (
    create_error_response serde (codes "Internal server error during database query")
      (codes "DATABASE_ERROR"))

unfoldable pub serialized {ℓ} : {A : Type ℓ} → Serde → Codec A → A → Result Text Text
unfolding create_error_response
serialized serde codec response = elim (codec.to_string response) [
  | some json ↦ ok json
  | none ↦ err (
      create_error_response serde (codes "Internal server error during serialization")
        (codes "SERIALIZATION_ERROR"))
]
