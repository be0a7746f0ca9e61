-- ===== src/Save/Process.antt =====
-- The functions of k_protocol.rs that store votes, broadcasts, blocks and follows, the signature
-- check in front of every store, and `process_k_transaction`.
use k_indexer.Prelude.{not, ◌||◌, Option, none, some, ◌==◌, if◌then◌else◌}
use k_indexer.Text.{Text, codes, text_eq, is_control}
use k_indexer.Text.Utf8.{from_utf8}
use k_indexer.Protocol.{
  KBroadcast, KPost, KReply, KVote, KBlock, KQuote, KFollow, KActionType, broadcast, post, reply,
  vote, block, quote, follow, unknown,
}
use k_indexer.Protocol.Parse.{Parsed, ok, err, parse_k_protocol_payload}
use k_indexer.Protocol.Messages.{
  post_message, reply_message, quote_message, broadcast_message, vote_message, block_message,
  follow_message,
}
use k_indexer.Store.{Bytes, BroadcastRow, VoteRow, BlockRow, FollowRow, Db}
use k_indexer.Store.Rows.{where_rows}
use k_indexer.Store.Statements.{
  insert_vote, replace_broadcast, insert_block, delete_block, insert_follow, delete_follow,
}
use k_indexer.Save.{
  Transaction, Libs, ◌>>=◌, verify_kaspa_signature, block_time_of, store_k_post, store_k_reply,
  store_k_quote,
}

module _ {Key : Type 0} (libs : Libs Key) where
  unfoldable pub store_k_broadcast : Transaction → KBroadcast → Db → Option Db
  store_k_broadcast transaction k db = do
    transaction_id ← libs.hex.decode transaction.transaction_id
    sender_pubkey ← libs.hex.decode k.sender_pubkey
    sender_signature ← libs.hex.decode k.sender_signature
    let row : BroadcastRow = record {
      transaction_id = transaction_id;
      block_time = block_time_of transaction;
      sender_pubkey = sender_pubkey;
      sender_signature = sender_signature;
      base64_encoded_nickname = k.base64_encoded_nickname;
      base64_encoded_profile_image = k.base64_encoded_profile_image;
      base64_encoded_message = k.base64_encoded_message;
    }
    replace_broadcast row db

  unfoldable pub store_k_vote : Transaction → KVote → Db → Option Db
  store_k_vote transaction k db = do
    transaction_id ← libs.hex.decode transaction.transaction_id
    sender_pubkey ← libs.hex.decode k.sender_pubkey
    sender_signature ← libs.hex.decode k.sender_signature
    post_id ← libs.hex.decode k.post_id
    mentioned_pubkey ← libs.hex.decode k.mentioned_pubkey
    let row : VoteRow = record {
      transaction_id = transaction_id;
      block_time = block_time_of transaction;
      sender_pubkey = sender_pubkey;
      sender_signature = sender_signature;
      post_id = post_id;
      vote = k.vote;
    }
    insert_vote row mentioned_pubkey db

  -- The arm "block" of the match on `blocking_action`.
  unfoldable pub store_block_record : Transaction → KBlock → Bytes → Bytes → Db → Option Db
  store_block_record transaction k sender_pubkey blocked_user_pubkey db = do
    transaction_id ← libs.hex.decode transaction.transaction_id
    sender_signature ← libs.hex.decode k.sender_signature
    let row : BlockRow = record {
      transaction_id = transaction_id;
      block_time = block_time_of transaction;
      sender_pubkey = sender_pubkey;
      sender_signature = sender_signature;
      blocking_action = k.blocking_action;
      blocked_user_pubkey = blocked_user_pubkey;
    }
    insert_block row db

  unfoldable pub store_k_block : Transaction → KBlock → Db → Option Db
  unfolding store_block_record
  store_k_block transaction k db = do
    sender_pubkey ← libs.hex.decode k.sender_pubkey
    blocked_user_pubkey ← libs.hex.decode k.blocked_user_pubkey
    if text_eq k.blocking_action (codes "block")
        then store_block_record transaction k sender_pubkey blocked_user_pubkey db
        else if text_eq k.blocking_action (codes "unblock")
        then delete_block sender_pubkey blocked_user_pubkey db
        else none

  -- The arm "follow" of the match on `following_action`.
  unfoldable pub store_follow_record : Transaction → KFollow → Bytes → Bytes → Db → Option Db
  store_follow_record transaction k sender_pubkey followed_user_pubkey db = do
    transaction_id ← libs.hex.decode transaction.transaction_id
    sender_signature ← libs.hex.decode k.sender_signature
    let row : FollowRow = record {
      transaction_id = transaction_id;
      block_time = block_time_of transaction;
      sender_pubkey = sender_pubkey;
      sender_signature = sender_signature;
      following_action = k.following_action;
      followed_user_pubkey = followed_user_pubkey;
    }
    insert_follow row db

  unfoldable pub store_k_follow : Transaction → KFollow → Db → Option Db
  unfolding store_follow_record
  store_k_follow transaction k db = do
    sender_pubkey ← libs.hex.decode k.sender_pubkey
    followed_user_pubkey ← libs.hex.decode k.followed_user_pubkey
    if text_eq k.following_action (codes "follow")
        then store_follow_record transaction k sender_pubkey followed_user_pubkey db
        else if text_eq k.following_action (codes "unfollow")
        then delete_follow sender_pubkey followed_user_pubkey db
        else none

  -- An action whose signature is invalid is skipped.
  unfoldable pub if_signed : Text → Text → Text → (Db → Option Db) → Db → Option Db
  if_signed message signature pubkey store db =
      if not (verify_kaspa_signature libs message signature pubkey) then some db else store db

  unfoldable pub save_k_post_to_database : Transaction → KPost → Db → Option Db
  unfolding if_signed
  save_k_post_to_database transaction k =
      if_signed (post_message libs.json k) k.sender_signature k.sender_pubkey
        (store_k_post libs transaction k)

  unfoldable pub save_k_reply_to_database : Transaction → KReply → Db → Option Db
  unfolding if_signed
  save_k_reply_to_database transaction k =
      if_signed (reply_message libs.json k) k.sender_signature k.sender_pubkey
        (store_k_reply libs transaction k)

  unfoldable pub save_k_quote_to_database : Transaction → KQuote → Db → Option Db
  unfolding if_signed
  save_k_quote_to_database transaction k =
      if_signed (quote_message k) k.sender_signature k.sender_pubkey
        (store_k_quote libs transaction k)

  unfoldable pub save_k_broadcast_to_database : Transaction → KBroadcast → Db → Option Db
  unfolding if_signed
  save_k_broadcast_to_database transaction k =
      if_signed (broadcast_message k) k.sender_signature k.sender_pubkey
        (store_k_broadcast transaction k)

  unfoldable pub save_k_vote_to_database : Transaction → KVote → Db → Option Db
  unfolding if_signed
  save_k_vote_to_database transaction k =
      if_signed (vote_message k) k.sender_signature k.sender_pubkey (store_k_vote transaction k)

  unfoldable pub process_k_block_in_database : Transaction → KBlock → Db → Option Db
  unfolding if_signed
  process_k_block_in_database transaction k =
      if_signed (block_message k) k.sender_signature k.sender_pubkey (store_k_block transaction k)

  unfoldable pub process_k_follow_in_database : Transaction → KFollow → Db → Option Db
  unfolding if_signed
  process_k_follow_in_database transaction k =
      if_signed (follow_message k) k.sender_signature k.sender_pubkey (store_k_follow transaction k)

  -- The match on the parsed action.
  unfoldable pub process_action : Transaction → KActionType → Db → Option Db
  unfolding save_k_post_to_database save_k_reply_to_database save_k_quote_to_database
      save_k_broadcast_to_database save_k_vote_to_database process_k_block_in_database
      process_k_follow_in_database
  process_action transaction (broadcast k) = save_k_broadcast_to_database transaction k
  process_action transaction (post k) = save_k_post_to_database transaction k
  process_action transaction (reply k) = save_k_reply_to_database transaction k
  process_action transaction (vote k) = save_k_vote_to_database transaction k
  process_action transaction (block k) = process_k_block_in_database transaction k
  process_action transaction (quote k) = save_k_quote_to_database transaction k
  process_action transaction (follow k) = process_k_follow_in_database transaction k
  process_action transaction (unknown action) = some

  -- Control characters are dropped, but for line feeds, carriage returns and tabs.
  unfoldable pub clean_payload : Text → Text
  clean_payload = where_rows (λ c. not (is_control c) || c == b'\n' || c == b'\r' || c == b'\t')

  unfoldable pub process_parsed : Transaction → Parsed → Db → Option Db
  process_parsed transaction (ok a) db = process_action transaction a db
  process_parsed transaction (err e) db = some db

  -- The payload's text: none where the payload is absent, no hex or no UTF-8.
  unfoldable pub payload_str : Transaction → Option Text
  payload_str transaction = transaction.payload >>= libs.hex.decode >>= from_utf8

  unfoldable pub process_payload : Transaction → Option Text → Db → Option Db
  unfolding process_parsed clean_payload
  process_payload transaction none db = some db
  process_payload transaction (some s) db =
      process_parsed transaction (parse_k_protocol_payload libs.json (clean_payload s)) db

  unfoldable pub process_k_transaction : Transaction → Db → Option Db
  unfolding process_payload payload_str
  process_k_transaction transaction = process_payload transaction (payload_str transaction)
