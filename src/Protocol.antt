-- ===== src/Protocol.antt =====
-- The K protocol's actions (K-transaction-processor/src/k_protocol.rs) and what its parser
-- takes from `serde_json`: lists of strings.
pub mod Parse
pub mod Messages
pub mod RoundTrip
pub mod Sound
pub mod Binding
pub mod Tests
use k_indexer.Prelude.{ℕ, ◌≡◌, Option, none, some, List}
use k_indexer.Text.{Text}

pub record KBroadcast : Type 0 where
  pub sender_pubkey : Text
  pub sender_signature : Text
  pub base64_encoded_nickname : Text
  pub base64_encoded_profile_image : Option Text
  pub base64_encoded_message : Text

pub record KPost : Type 0 where
  pub sender_pubkey : Text
  pub sender_signature : Text
  pub base64_encoded_message : Text
  pub mentioned_pubkeys : List Text

pub record KReply : Type 0 where
  pub sender_pubkey : Text
  pub sender_signature : Text
  pub post_id : Text
  pub base64_encoded_message : Text
  pub mentioned_pubkeys : List Text

pub record KVote : Type 0 where
  pub sender_pubkey : Text
  pub sender_signature : Text
  pub post_id : Text
  pub vote : Text
  pub mentioned_pubkey : Text

pub record KBlock : Type 0 where
  pub sender_pubkey : Text
  pub sender_signature : Text
  pub blocking_action : Text
  pub blocked_user_pubkey : Text

pub record KQuote : Type 0 where
  pub sender_pubkey : Text
  pub sender_signature : Text
  pub content_id : Text
  pub base64_encoded_message : Text
  pub mentioned_pubkey : Text

pub record KFollow : Type 0 where
  pub sender_pubkey : Text
  pub sender_signature : Text
  pub following_action : Text
  pub followed_user_pubkey : Text

pub data KActionType : Type 0 where
  broadcast : KBroadcast → KActionType
  post : KPost → KActionType
  reply : KReply → KActionType
  vote : KVote → KActionType
  block : KBlock → KActionType
  quote : KQuote → KActionType
  follow : KFollow → KActionType
  unknown : Text → KActionType

-- `serde_json::to_string` and `serde_json::from_str` at `Vec<String>`: printing may fail, and what
-- it prints is read back.
pub record Json : Type 0 where
  pub to_string : List Text → Option Text
  pub from_str : Text → Option (List Text)
  pub from_str-to_string : (l : List Text) (s : Text) → to_string l ≡ some s → from_str s ≡ some l
