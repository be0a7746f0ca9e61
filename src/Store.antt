-- ===== src/Store.antt =====
-- The tables of K-transaction-processor/src/migrations/schema/up.sql. A table is a list of rows; the
-- newest row stands first, and no statement reads the order. The serial column `id` is left out,
-- since no statement that is modelled on these tables reads it, and `k_mentions.sender_pubkey` is
-- always set, as every insert sets it.
pub mod Statements
pub mod Rows
pub mod Invariant
pub mod Keeps
use k_indexer.Prelude.{ℕ, ℤ, Option, List, []}
use k_indexer.Text.{Text}

-- A `bytea` value.
abbrev pub Bytes : Type 0
Bytes = List ℕ

-- The values of the column `content_type`, in `k_contents` and in `k_mentions`.
pub data ContentType : Type 0 where
  post reply repost quote vote : ContentType

pub record BroadcastRow : Type 0 where
  pub transaction_id : Bytes
  pub block_time : ℤ
  pub sender_pubkey : Bytes
  pub sender_signature : Bytes
  pub base64_encoded_nickname : Text
  pub base64_encoded_profile_image : Option Text
  pub base64_encoded_message : Text

pub record VoteRow : Type 0 where
  pub transaction_id : Bytes
  pub block_time : ℤ
  pub sender_pubkey : Bytes
  pub sender_signature : Bytes
  pub post_id : Bytes
  pub vote : Text

pub record MentionRow : Type 0 where
  pub content_id : Bytes
  pub content_type : ContentType
  pub mentioned_pubkey : Bytes
  pub block_time : ℤ
  pub sender_pubkey : Bytes

pub record BlockRow : Type 0 where
  pub transaction_id : Bytes
  pub block_time : ℤ
  pub sender_pubkey : Bytes
  pub sender_signature : Bytes
  pub blocking_action : Text
  pub blocked_user_pubkey : Bytes

pub record FollowRow : Type 0 where
  pub transaction_id : Bytes
  pub block_time : ℤ
  pub sender_pubkey : Bytes
  pub sender_signature : Bytes
  pub following_action : Text
  pub followed_user_pubkey : Bytes

pub record ContentRow : Type 0 where
  pub transaction_id : Bytes
  pub block_time : ℤ
  pub sender_pubkey : Bytes
  pub sender_signature : Bytes
  pub base64_encoded_message : Text
  pub content_type : ContentType
  pub referenced_content_id : Option Bytes

pub record HashtagRow : Type 0 where
  pub sender_pubkey : Bytes
  pub content_id : Bytes
  pub block_time : ℤ
  pub hashtag : Text

pub record Db : Type 0 where
  pub k_broadcasts : List BroadcastRow
  pub k_votes : List VoteRow
  pub k_mentions : List MentionRow
  pub k_blocks : List BlockRow
  pub k_follows : List FollowRow
  pub k_contents : List ContentRow
  pub k_hashtags : List HashtagRow

-- A schema that was just created.
abbrev pub empty_db : Db
empty_db = record {
  k_broadcasts = [];
  k_votes = [];
  k_mentions = [];
  k_blocks = [];
  k_follows = [];
  k_contents = [];
  k_hashtags = [];
}
