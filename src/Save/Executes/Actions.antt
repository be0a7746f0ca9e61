-- ===== src/Save/Executes/Actions.antt =====
-- Whatever the transaction, processing it is one statement, nothing, or an error.
use k_indexer.Prelude.{◌≡◌, refl, arith, true, not, Option, none, some, List, [], ◌∷◌, All}
use k_indexer.Text.{Text, codes, text_eq, is_empty}
use k_indexer.Protocol.{
  KBroadcast, KPost, KReply, KVote, KBlock, KQuote, KFollow, KActionType, broadcast, post, reply,
  vote, block, quote, follow, unknown,
}
use k_indexer.Protocol.Parse.{Parsed, ok, err}
use k_indexer.Protocol.Messages.{
  mentioned_pubkeys_json_str, post_message, reply_message, quote_message, broadcast_message,
  profile_image_str, vote_message, block_message, follow_message,
}
use k_indexer.Save.Signed.{
  verify-IsSigned, IsSignedBroadcast, IsSignedContent, signed_post, signed_reply, signed_quote,
}
use k_indexer.Save.Signed.Rows.{
  IsSignedMention, IsSignedHashtag, named, mentions_of-IsSignedMention, hashtags_of-IsSignedHashtag,
  All-any,
}
use k_indexer.Store.{ContentType, Bytes, ContentRow, Db}
use k_indexer.Store.Statements.{mentions_of, hashtags_of}
use k_indexer.Save.{
  Transaction, Libs, ◌>>=◌, decode_all, hashtags_in, block_time_of, verify_kaspa_signature,
  insert_by_case, store_k_post, store_k_reply, store_k_quote,
}
use k_indexer.Save.Process.{
  store_k_broadcast, store_k_vote, store_k_block, store_k_follow, store_block_record,
  store_follow_record, if_signed, process_action, process_parsed, process_payload,
  process_k_transaction,
}
use k_indexer.Save.Executes.{
  Executes, skip, fail, inserts_content, inserts_vote, replaces_broadcast, inserts_block,
  deletes_block, inserts_follow, deletes_follow, Executes-bind, Executes-if, rows,
}

module _ {Key : Type 0} (libs : Libs Key) (t : Transaction) where
  insert_by_case-Executes :
      (row : ContentRow) (ms : List Text) (ts : List Text)
      → IsSignedContent libs row
      → ((mentions : List Bytes)
          → decode_all libs ms ≡ some mentions
          → All (IsSignedMention libs) (mentions_of row mentions))
      → All (IsSignedHashtag libs) (hashtags_of row ts)
      → Executes libs (insert_by_case libs row ms ts)
  unfolding insert_by_case mentions_of hashtags_of
  insert_by_case-Executes row ms ts signed mentioned tagged =
      Executes-if libs (is_empty ms) _ _
        (λ _.
          Executes-if libs (is_empty ts) _ _
            (λ _. inserts_content row [] [] (rows libs signed tt tt))
            λ _. inserts_content row [] ts (rows libs signed tt tagged))
        λ _. Executes-bind libs (decode_all libs ms) _ λ mentions d.
          Executes-if libs (is_empty ts) _ _
            (λ _. inserts_content row mentions [] (rows libs signed (mentioned mentions d) tt))
            λ _. inserts_content row mentions ts (rows libs signed (mentioned mentions d) tagged)

  -- A step that decodes a hex text.
  decodes :
      (s : Text) (f : Bytes → Db → Option Db)
      → ((b : Bytes) → libs.hex.decode s ≡ some b → Executes libs (f b))
      → Executes libs (λ db. libs.hex.decode s >>= λ b. f b db)
  decodes s f h = Executes-bind libs (libs.hex.decode s) f h

  -- What the signature check has shown when an action is stored.
  abbrev Verified : Text → Text → Text → Type 0
  Verified message signature pubkey = verify_kaspa_signature libs message signature pubkey ≡ true

  store_k_post-Executes :
      (k : KPost)
      → Verified (post_message libs.json k) k.sender_signature k.sender_pubkey
      → Executes libs (store_k_post libs t k)
  unfolding store_k_post post_message
  store_k_post-Executes k h = decodes t.transaction_id _ λ id _.
      decodes k.sender_pubkey _ λ pubkey hp. decodes k.sender_signature _ λ signature hs.
        let signed = verify-IsSigned libs _ _ _ signature pubkey hs hp h in
        let tags = hashtags_in libs k.base64_encoded_message in
        insert_by_case-Executes _ k.mentioned_pubkeys _ (signed_post _ refl signed)
          (λ mentions d.
            mentions_of-IsSignedMention libs _ (k.base64_encoded_message ∷ []) k.mentioned_pubkeys
              mentions d signed mentions (All-any mentions))
          (hashtags_of-IsSignedHashtag libs _ [] k.base64_encoded_message
            (mentioned_pubkeys_json_str libs.json k.mentioned_pubkeys ∷ []) signed tags
            (All-any tags))

  store_k_reply-Executes :
      (k : KReply)
      → Verified (reply_message libs.json k) k.sender_signature k.sender_pubkey
      → Executes libs (store_k_reply libs t k)
  unfolding store_k_reply reply_message
  store_k_reply-Executes k h = decodes t.transaction_id _ λ id _.
      decodes k.sender_pubkey _ λ pubkey hp. decodes k.sender_signature _ λ signature hs.
        decodes k.post_id _ λ post_id hr.
          let signed = verify-IsSigned libs _ _ _ signature pubkey hs hp h in
          let tags = hashtags_in libs k.base64_encoded_message in
          insert_by_case-Executes _ k.mentioned_pubkeys _ (signed_reply k.post_id _ refl hr signed)
            (λ mentions d.
              mentions_of-IsSignedMention libs _ (k.post_id ∷ k.base64_encoded_message ∷ [])
                k.mentioned_pubkeys mentions d signed mentions (All-any mentions))
            (hashtags_of-IsSignedHashtag libs _ (k.post_id ∷ []) k.base64_encoded_message
              (mentioned_pubkeys_json_str libs.json k.mentioned_pubkeys ∷ []) signed tags
              (All-any tags))

  store_k_quote-Executes :
      (k : KQuote)
      → Verified (quote_message k) k.sender_signature k.sender_pubkey
      → Executes libs (store_k_quote libs t k)
  unfolding store_k_quote quote_message mentions_of hashtags_of
  store_k_quote-Executes k h = decodes t.transaction_id _ λ id _.
      decodes k.sender_pubkey _ λ pubkey hp. decodes k.sender_signature _ λ signature hs.
        decodes k.content_id _ λ content_id hr. decodes k.mentioned_pubkey _ λ mentioned hm.
          let signed = verify-IsSigned libs _ _ _ signature pubkey hs hp h in
          let content = signed_quote k.content_id k.mentioned_pubkey refl hr signed in
          let mention =
            named (k.content_id ∷ k.base64_encoded_message ∷ []) k.mentioned_pubkey signature hm
              signed in
          let tags = hashtags_in libs k.base64_encoded_message in
          let row : ContentRow = record {
            transaction_id = id;
            block_time = block_time_of t;
            sender_pubkey = pubkey;
            sender_signature = signature;
            base64_encoded_message = k.base64_encoded_message;
            content_type = ContentType.quote;
            referenced_content_id = some content_id;
          } in
          let tagged =
            hashtags_of-IsSignedHashtag libs row (k.content_id ∷ []) k.base64_encoded_message
              (k.mentioned_pubkey ∷ []) signed tags (All-any tags) in
          Executes-if libs (is_empty tags) _ _
            (λ _. inserts_content row _ _ (rows libs content (mention, tt) tt))
            (λ _. inserts_content row _ _ (rows libs content (mention, tt) tagged))

  store_k_broadcast-Executes :
      (k : KBroadcast)
      → Verified (broadcast_message k) k.sender_signature k.sender_pubkey
      → Executes libs (store_k_broadcast libs t k)
  unfolding store_k_broadcast broadcast_message profile_image_str IsSignedBroadcast
  store_k_broadcast-Executes k h = decodes t.transaction_id _ λ id _.
      decodes k.sender_pubkey _ λ pubkey hp.
        decodes k.sender_signature _
          λ signature hs. replaces_broadcast _ (verify-IsSigned libs _ _ _ signature pubkey hs hp h)

  store_k_vote-Executes :
      (k : KVote)
      → Verified (vote_message k) k.sender_signature k.sender_pubkey
      → Executes libs (store_k_vote libs t k)
  unfolding store_k_vote vote_message
  store_k_vote-Executes k h = decodes t.transaction_id _ λ id _.
      decodes k.sender_pubkey _ λ pubkey hp. decodes k.sender_signature _ λ signature hs.
        decodes k.post_id _ λ post_id hr. decodes k.mentioned_pubkey _ λ mentioned hm.
          let signed = verify-IsSigned libs _ _ _ signature pubkey hs hp h in
          inserts_vote _ mentioned record {
            vote = record {
              post_id = k.post_id;
              mentioned_pubkey = k.mentioned_pubkey;
              is_post_id = hr;
              signed = signed;
            };
            mention = named (k.post_id ∷ k.vote ∷ []) k.mentioned_pubkey signature hm signed;
          }

  store_k_block-Executes :
      (k : KBlock)
      → Verified (block_message k) k.sender_signature k.sender_pubkey
      → Executes libs (store_k_block libs t k)
  unfolding store_k_block store_block_record block_message
  store_k_block-Executes k h = decodes k.sender_pubkey _ λ pubkey hp.
      decodes k.blocked_user_pubkey _ λ blocked hb.
        Executes-if libs (text_eq k.blocking_action (codes "block")) _ _
          (λ _. decodes t.transaction_id _ λ id _. decodes k.sender_signature _ λ signature hs.
            inserts_block _ record {
              blocked_user = k.blocked_user_pubkey;
              is_blocked_user = hb;
              signed = verify-IsSigned libs _ _ _ signature pubkey hs hp h;
            })
          λ _.
            Executes-if libs (text_eq k.blocking_action (codes "unblock")) _ _
              (λ _. deletes_block pubkey blocked) (λ _. fail)

  store_k_follow-Executes :
      (k : KFollow)
      → Verified (follow_message k) k.sender_signature k.sender_pubkey
      → Executes libs (store_k_follow libs t k)
  unfolding store_k_follow store_follow_record follow_message
  store_k_follow-Executes k h = decodes k.sender_pubkey _ λ pubkey hp.
      decodes k.followed_user_pubkey _ λ followed hb.
        Executes-if libs (text_eq k.following_action (codes "follow")) _ _
          (λ _. decodes t.transaction_id _ λ id _. decodes k.sender_signature _ λ signature hs.
            inserts_follow _ record {
              followed_user = k.followed_user_pubkey;
              is_followed_user = hb;
              signed = verify-IsSigned libs _ _ _ signature pubkey hs hp h;
            })
          λ _.
            Executes-if libs (text_eq k.following_action (codes "unfollow")) _ _
              (λ _. deletes_follow pubkey followed) (λ _. fail)

  if_signed-Executes :
      (message signature pubkey : Text) (store : Db → Option Db)
      → (Verified message signature pubkey → Executes libs store)
      → Executes libs (if_signed libs message signature pubkey store)
  unfolding if_signed
  if_signed-Executes message signature pubkey store h =
      Executes-if libs (not (verify_kaspa_signature libs message signature pubkey)) _ _ (λ _. skip)
        λ e. h (ground arith)

  process_action-Executes : (a : KActionType) → Executes libs (process_action libs t a)
  unfolding process_action
  process_action-Executes (broadcast k) = if_signed-Executes _ _ _ _ (store_k_broadcast-Executes k)
  process_action-Executes (post k) = if_signed-Executes _ _ _ _ (store_k_post-Executes k)
  process_action-Executes (reply k) = if_signed-Executes _ _ _ _ (store_k_reply-Executes k)
  process_action-Executes (vote k) = if_signed-Executes _ _ _ _ (store_k_vote-Executes k)
  process_action-Executes (block k) = if_signed-Executes _ _ _ _ (store_k_block-Executes k)
  process_action-Executes (quote k) = if_signed-Executes _ _ _ _ (store_k_quote-Executes k)
  process_action-Executes (follow k) = if_signed-Executes _ _ _ _ (store_k_follow-Executes k)
  process_action-Executes (unknown action) = skip

  process_parsed-Executes : (r : Parsed) → Executes libs (process_parsed libs t r)
  unfolding process_parsed
  process_parsed-Executes (ok a) = process_action-Executes a
  process_parsed-Executes (err e) = skip

  process_payload-Executes : (s : Option Text) → Executes libs (process_payload libs t s)
  unfolding process_payload
  process_payload-Executes none = skip
  process_payload-Executes (some s) = process_parsed-Executes _

  pub process_k_transaction-Executes : Executes libs (process_k_transaction libs t)
  unfolding process_k_transaction
  process_k_transaction-Executes = process_payload-Executes _
