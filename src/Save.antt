-- ===== src/Save.antt =====
-- `KProtocolProcessor` of K-transaction-processor/src/k_protocol.rs: the signature check, and the
-- function that stores each kind of action. A function returns the new tables, or `none` for an
-- `Err`; each executes one statement at most, so an `Err` leaves the tables as they were. A statement
-- itself fails here only on a constraint: a lost connection is not modelled.
pub mod Process
pub mod Executes
pub mod Laws
pub mod Signed
pub mod Keys
pub mod Authentic
pub mod Idempotent
pub mod Broadcasts
pub mod Tests
use k_indexer.Prelude.{
  ℕ, ℤ, pos, ◌≡◌, Bool, true, false, not, Option, none, some, List, [], ◌∷◌, ◌==◌, if◌then◌else◌,
  length, drop,
}
use k_indexer.Text.{Text, codes, text_eq, is_empty}
use k_indexer.Protocol.{KBroadcast, KPost, KReply, KVote, KBlock, KQuote, KFollow, Json}
use k_indexer.Protocol.Messages.{
  unwrap_or, post_message, reply_message, quote_message, broadcast_message, vote_message,
  block_message, follow_message,
}
use k_indexer.Hashtags.{TextLibs, extract_hashtags_from_base64}
use k_indexer.Store.{Bytes, ContentType, ContentRow, BroadcastRow, VoteRow, Db}
use k_indexer.Store.Statements.{
  insert_content, insert_vote, replace_broadcast, insert_block, delete_block, insert_follow,
  delete_follow,
}

-- `database::Transaction`; the id and the payload are in hex.
pub record Transaction : Type 0 where
  pub transaction_id : Text
  pub payload : Option Text
  pub block_time : Option ℤ

-- The crate `hex`.
pub record Hex : Type 0 where
  pub decode : Text → Option Bytes
  pub encode : Bytes → Text
  pub decode-encode : (b : Bytes) → decode (encode b) ≡ some b

-- `XOnlyPublicKey::from_slice` and `verify_message`, over the library's type of keys.
pub record Kaspa (Key : Type 0) : Type 0 where
  pub from_slice : Bytes → Option Key
  pub verify_message : Text → Bytes → Key → Bool

pub record Libs (Key : Type 0) : Type 0 where
  pub json : Json
  pub hex : Hex
  pub kaspa : Kaspa Key
  pub text : TextLibs

infixl 5 ◌>>=◌
abbrev pub ◌>>=◌ {ℓ κ} : {A : Type ℓ} {B : Type κ} → Option A → (A → Option B) → Option B
none >>= f = none
some a >>= f = f a

-- The x-only key in the bytes of a public key: 33 bytes lose their first, 32 are taken as they are.
unfoldable pub x_only_bytes : Bytes → Option Bytes
x_only_bytes bytes =
    if length bytes == 33
    then some (drop 1 bytes)
    else if length bytes == 32
    then some bytes
    else none

-- The signature must have 64 bytes.
unfoldable pub schnorr_bytes : Bytes → Option Bytes
schnorr_bytes bytes = if not (length bytes == 64) then none else some bytes

-- `transaction.block_time.unwrap_or(0)`.
abbrev pub block_time_of : Transaction → ℤ
block_time_of transaction = unwrap_or (pos 0) transaction.block_time

module _ {Key : Type 0} (libs : Libs Key) where
  -- What is verified, if the signature and the key can be read.
  unfoldable pub check_signature : Text → Text → Text → Option Bool
  unfolding schnorr_bytes x_only_bytes
  check_signature message signature public_key_hex = do
    signature_bytes ← libs.hex.decode signature >>= schnorr_bytes
    public_key_bytes ← libs.hex.decode public_key_hex >>= x_only_bytes
    public_key ← libs.kaspa.from_slice public_key_bytes
    some (libs.kaspa.verify_message message signature_bytes public_key)

  unfoldable pub verify_kaspa_signature : Text → Text → Text → Bool
  unfolding check_signature
  verify_kaspa_signature message signature public_key_hex =
      unwrap_or false (check_signature message signature public_key_hex)

  -- `iter().map(hex::decode).collect::<Result<Vec<_>, _>>()`.
  unfoldable pub decode_all : List Text → Option (List Bytes)
  decode_all [] = some []
  decode_all (s ∷ ss) = do b ← libs.hex.decode s; bs ← decode_all ss; some (b ∷ bs)

  unfoldable pub hashtags_in : Text → List Text
  hashtags_in = extract_hashtags_from_base64 libs.text

  -- The four statements of a post or a reply: with and without mentions, with and without hashtags.
  unfoldable pub insert_by_case : ContentRow → List Text → List Text → Db → Option Db
  insert_by_case row mentioned_pubkeys hashtags db =
      if is_empty mentioned_pubkeys
      then if is_empty hashtags
        then insert_content row [] [] db
        else insert_content row [] hashtags db
      else decode_all mentioned_pubkeys >>= λ mentions.
          if is_empty hashtags
          then insert_content row mentions [] db
          else insert_content row mentions hashtags db

  unfoldable pub store_k_post : Transaction → KPost → Db → Option Db
  store_k_post transaction k db = do
    transaction_id ← libs.hex.decode transaction.transaction_id
    sender_pubkey ← libs.hex.decode k.sender_pubkey
    sender_signature ← libs.hex.decode k.sender_signature
    let row : ContentRow = record {
      transaction_id = transaction_id;
      block_time = block_time_of transaction;
      sender_pubkey = sender_pubkey;
      sender_signature = sender_signature;
      base64_encoded_message = k.base64_encoded_message;
      content_type = ContentType.post;
      referenced_content_id = none;
    }
    insert_by_case row k.mentioned_pubkeys (hashtags_in k.base64_encoded_message) db

  unfoldable pub store_k_reply : Transaction → KReply → Db → Option Db
  store_k_reply transaction k db = do
    transaction_id ← libs.hex.decode transaction.transaction_id
    sender_pubkey ← libs.hex.decode k.sender_pubkey
    sender_signature ← libs.hex.decode k.sender_signature
    post_id ← libs.hex.decode k.post_id
    let row : ContentRow = record {
      transaction_id = transaction_id;
      block_time = block_time_of transaction;
      sender_pubkey = sender_pubkey;
      sender_signature = sender_signature;
      base64_encoded_message = k.base64_encoded_message;
      content_type = ContentType.reply;
      referenced_content_id = some post_id;
    }
    insert_by_case row k.mentioned_pubkeys (hashtags_in k.base64_encoded_message) db

  unfoldable pub store_k_quote : Transaction → KQuote → Db → Option Db
  store_k_quote transaction k db = do
    transaction_id ← libs.hex.decode transaction.transaction_id
    sender_pubkey ← libs.hex.decode k.sender_pubkey
    sender_signature ← libs.hex.decode k.sender_signature
    content_id ← libs.hex.decode k.content_id
    mentioned_pubkey ← libs.hex.decode k.mentioned_pubkey
    let row : ContentRow = record {
      transaction_id = transaction_id;
      block_time = block_time_of transaction;
      sender_pubkey = sender_pubkey;
      sender_signature = sender_signature;
      base64_encoded_message = k.base64_encoded_message;
      content_type = ContentType.quote;
      referenced_content_id = some content_id;
    }
    let hashtags = hashtags_in k.base64_encoded_message
    if is_empty hashtags
        then insert_content row (mentioned_pubkey ∷ []) [] db
        else insert_content row (mentioned_pubkey ∷ []) hashtags db
