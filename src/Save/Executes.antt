-- ===== src/Save/Executes.antt =====
-- What processing a transaction may execute: one statement, nothing, or an error.
pub mod Actions
use k_indexer.Prelude.{
  ◌≡◌, refl, arith, Bool, true, false, not, Option, none, some, List, [], ◌∷◌, All, if◌then◌else◌,
}
use k_indexer.Text.{Text, codes, text_eq, is_empty}
use k_indexer.Protocol.{
  KBroadcast, KPost, KReply, KVote, KBlock, KQuote, KFollow, KActionType, broadcast, post, reply,
  vote, block, quote, follow, unknown,
}
use k_indexer.Protocol.Parse.{Parsed, ok, err}
use k_indexer.Protocol.Messages.{
  mentioned_pubkeys_json_str, post_message, reply_message, quote_message, broadcast_message,
  profile_image_str, vote_message, block_message, follow_message,
}
use k_indexer.Save.Signed.{
  verify-IsSigned, IsSignedBroadcast, IsSignedVote, IsSignedBlock, IsSignedFollow, IsSignedContent,
  signed_post, signed_reply, signed_quote,
}
use k_indexer.Save.Signed.Rows.{
  AreSignedRows, AreSignedVoteRows, IsSignedMention, IsSignedHashtag, named,
  mentions_of-IsSignedMention, hashtags_of-IsSignedHashtag, All-any,
}
use k_indexer.Store.{ContentType, Bytes, BroadcastRow, VoteRow, BlockRow, FollowRow, ContentRow, Db}
use k_indexer.Store.Statements.{
  mentions_of, hashtags_of, insert_content, insert_vote, replace_broadcast, insert_block,
  delete_block, insert_follow, delete_follow,
}
use k_indexer.Save.{
  Transaction, Libs, ◌>>=◌, decode_all, hashtags_in, block_time_of, verify_kaspa_signature,
  insert_by_case, store_k_post, store_k_reply, store_k_quote,
}
use k_indexer.Save.Process.{
  store_k_broadcast, store_k_vote, store_k_block, store_k_follow, store_block_record,
  store_follow_record, if_signed, process_action, process_parsed, process_payload,
  process_k_transaction,
}

-- What a function on the tables executes. A row that it writes is signed by its sender.
pub data Executes {Key : Type 0} (libs : Libs Key) : (Db → Option Db) → Type 0 where
  skip : Executes libs (λ db. some db)
  fail : Executes libs (λ db. none)
  inserts_content :
      (r : ContentRow) (ms : List Bytes) (ts : List Text)
      → AreSignedRows libs r ms ts
      → Executes libs (insert_content r ms ts)
  inserts_vote :
      (r : VoteRow) (pubkey : Bytes)
      → AreSignedVoteRows libs r pubkey
      → Executes libs (insert_vote r pubkey)
  replaces_broadcast :
      (r : BroadcastRow) → IsSignedBroadcast libs r → Executes libs (replace_broadcast r)
  inserts_block : (r : BlockRow) → IsSignedBlock libs r → Executes libs (insert_block r)
  deletes_block : (sender blocked : Bytes) → Executes libs (delete_block sender blocked)
  inserts_follow : (r : FollowRow) → IsSignedFollow libs r → Executes libs (insert_follow r)
  deletes_follow : (sender followed : Bytes) → Executes libs (delete_follow sender followed)

module _ {Key : Type 0} (libs : Libs Key) where
  pub Executes-bind :
      {A : Type 0} (m : Option A) (f : A → Db → Option Db)
      → ((a : A) → m ≡ some a → Executes libs (f a))
      → Executes libs (λ db. m >>= λ a. f a db)
  Executes-bind none f h = fail
  Executes-bind (some a) f h = h a refl

  pub Executes-if :
      (b : Bool) (f g : Db → Option Db)
      → (b ≡ true → Executes libs f)
      → (b ≡ false → Executes libs g)
      → Executes libs (λ db. if b then f db else g db)
  Executes-if true f g hf hg = hf refl
  Executes-if false f g hf hg = hg refl

  pub rows :
      {r : ContentRow} {ms : List Bytes} {ts : List Text}
      → IsSignedContent libs r
      → All (IsSignedMention libs) (mentions_of r ms)
      → All (IsSignedHashtag libs) (hashtags_of r ts)
      → AreSignedRows libs r ms ts
  rows c m h = record { content = c; mentions = m; hashtags = h }
