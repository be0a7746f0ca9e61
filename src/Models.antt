-- ===== src/Models.antt =====
-- The data of K-webserver/src/models.rs: what the queries of the database yield and what the server
-- answers. An `i64` is an integer and a `u64` or `u32` a natural number. How records become answers
-- stands in the children.
pub mod UserPosts
pub mod Posts
pub mod Notifications
pub mod Laws
pub mod Tests
use k_indexer.Prelude.{ℕ, ℤ, Bool, Option, List}
use k_indexer.Text.{Text, codes}
use k_indexer.Page.{PaginationMetadata}

pub record KBroadcastRecord : Type 0 where
  pub id : ℤ
  pub transaction_id : Text
  pub block_time : ℕ
  pub sender_pubkey : Text
  pub sender_signature : Text
  pub base64_encoded_nickname : Text
  pub base64_encoded_profile_image : Option Text
  pub base64_encoded_message : Text

pub record KPostRecord : Type 0 where
  pub id : ℤ
  pub transaction_id : Text
  pub block_time : ℕ
  pub sender_pubkey : Text
  pub sender_signature : Text
  pub base64_encoded_message : Text
  pub mentioned_pubkeys : List Text
  pub content_type : Option Text
  pub replies_count : Option ℕ
  pub up_votes_count : Option ℕ
  pub down_votes_count : Option ℕ
  pub quotes_count : Option ℕ
  pub is_upvoted : Option Bool
  pub is_downvoted : Option Bool
  pub user_nickname : Option Text
  pub user_profile_image : Option Text
  pub referenced_content_id : Option Text
  pub referenced_message : Option Text
  pub referenced_sender_pubkey : Option Text
  pub referenced_nickname : Option Text
  pub referenced_profile_image : Option Text

pub record KReplyRecord : Type 0 where
  pub id : ℤ
  pub transaction_id : Text
  pub block_time : ℕ
  pub sender_pubkey : Text
  pub sender_signature : Text
  pub post_id : Text
  pub base64_encoded_message : Text
  pub mentioned_pubkeys : List Text
  pub content_type : Option Text
  pub replies_count : Option ℕ
  pub up_votes_count : Option ℕ
  pub down_votes_count : Option ℕ
  pub quotes_count : Option ℕ
  pub is_upvoted : Option Bool
  pub is_downvoted : Option Bool
  pub user_nickname : Option Text
  pub user_profile_image : Option Text

pub record KVoteRecord : Type 0 where
  pub id : ℤ
  pub transaction_id : Text
  pub block_time : ℕ
  pub sender_pubkey : Text
  pub sender_signature : Text
  pub post_id : Text
  pub vote : Text
  pub mention_block_time : Option ℕ
  pub voted_content : Option Text
  pub user_nickname : Option Text
  pub user_profile_image : Option Text

pub data ContentRecord : Type 0 where
  post : KPostRecord → ContentRecord
  reply : KReplyRecord → ContentRecord
  vote : KVoteRecord → ContentRecord

pub record NotificationContentRecord : Type 0 where
  pub content : ContentRecord
  pub mention_id : ℤ
  pub mention_block_time : ℕ

pub record QuoteData : Type 0 where
  pub referenced_content_id : Text
  pub referenced_message : Text
  pub referenced_sender_pubkey : Text
  pub referenced_nickname : Option Text
  pub referenced_profile_image : Option Text

-- Also `ServerReply`.
pub record ServerPost : Type 0 where
  pub id : Text
  pub user_public_key : Text
  pub post_content : Text
  pub signature : Text
  pub timestamp : ℕ
  pub replies_count : ℕ
  pub up_votes_count : ℕ
  pub down_votes_count : ℕ
  pub quotes_count : ℕ
  pub reposts_count : ℕ
  pub parent_post_id : Option Text
  pub mentioned_pubkeys : List Text
  pub is_upvoted : Option Bool
  pub is_downvoted : Option Bool
  pub user_nickname : Option Text
  pub user_profile_image : Option Text
  pub blocked_user : Option Bool
  pub content_type : Option Text
  pub is_quote : Bool
  pub quote : Option QuoteData

pub record ServerUserPost : Type 0 where
  pub id : Text
  pub user_public_key : Text
  pub post_content : Text
  pub signature : Text
  pub timestamp : ℕ
  pub user_nickname : Option Text
  pub user_profile_image : Option Text
  pub blocked_user : Option Bool
  pub followed_user : Option Bool
  pub followers_count : Option ℤ
  pub following_count : Option ℤ
  pub blocked_count : Option ℤ
  pub contents_count : Option ℤ

pub record NotificationPost : Type 0 where
  pub id : Text
  pub user_public_key : Text
  pub post_content : Text
  pub timestamp : ℕ
  pub user_nickname : Option Text
  pub user_profile_image : Option Text
  pub content_type : Text
  pub cursor : Text
  pub vote_type : Option Text
  pub mention_block_time : Option ℕ
  pub content_id : Option Text
  pub post_id : Option Text
  pub voted_content : Option Text

pub record PaginatedPostsResponse : Type 0 where
  pub posts : List ServerPost
  pub pagination : PaginationMetadata

pub record PaginatedRepliesResponse : Type 0 where
  pub replies : List ServerPost
  pub pagination : PaginationMetadata

pub record PaginatedUsersResponse : Type 0 where
  pub posts : List ServerUserPost
  pub pagination : PaginationMetadata

pub record PaginatedNotificationsResponse : Type 0 where
  pub notifications : List NotificationPost
  pub pagination : PaginationMetadata

pub record PostDetailsResponse : Type 0 where
  pub post : ServerPost

pub record TrendingHashtag : Type 0 where
  pub hashtag : Text
  pub usage_count : ℕ
  pub rank : ℕ

pub record TrendingHashtagsResponse : Type 0 where
  pub time_window : Text
  pub from_time : ℕ
  pub to_time : ℕ
  pub hashtags : List TrendingHashtag

pub record ApiError : Type 0 where
  pub error : Text
  pub code : Text

-- Ten stars in base64, which stand for the content of a blocked user.
abbrev pub masked_content : Text
masked_content = codes "KioqKioqKioqKg=="
