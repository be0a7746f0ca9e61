-- ===== src/Protocol/Messages.antt =====
-- The message that an action's sender has signed, as each function of
-- K-transaction-processor/src/k_protocol.rs builds it before it verifies the signature.
use k_indexer.Prelude.{Option, none, some, List, [], ◌∷◌}
use k_indexer.Text.{Text, codes}
use k_indexer.Text.Split.{join}
use k_indexer.Protocol.{KBroadcast, KPost, KReply, KVote, KBlock, KQuote, KFollow, Json}

-- `unwrap_or`.
abbrev pub unwrap_or {ℓ} : {A : Type ℓ} → A → Option A → A
unwrap_or d none = d
unwrap_or d (some a) = a

-- `serde_json::to_string(&pubkeys).unwrap_or_else(|_| "[]".to_string())`.
unfoldable pub mentioned_pubkeys_json_str : Json → List Text → Text
mentioned_pubkeys_json_str json pubkeys = unwrap_or (codes "[]") (json.to_string pubkeys)

-- `base64_encoded_profile_image.as_deref().unwrap_or("")`.
unfoldable pub profile_image_str : KBroadcast → Text
profile_image_str b = unwrap_or [] b.base64_encoded_profile_image

unfoldable pub post_message : Json → KPost → Text
unfolding join
post_message json k =
    join b':' (k.base64_encoded_message ∷ mentioned_pubkeys_json_str json k.mentioned_pubkeys ∷ [])

unfoldable pub reply_message : Json → KReply → Text
unfolding join
reply_message json k = join b':' (
    k.post_id ∷ k.base64_encoded_message ∷ mentioned_pubkeys_json_str json k.mentioned_pubkeys ∷ [])

unfoldable pub quote_message : KQuote → Text
unfolding join
quote_message k = join b':' (k.content_id ∷ k.base64_encoded_message ∷ k.mentioned_pubkey ∷ [])

unfoldable pub broadcast_message : KBroadcast → Text
unfolding join
broadcast_message k =
    join b':' (k.base64_encoded_nickname ∷ profile_image_str k ∷ k.base64_encoded_message ∷ [])

unfoldable pub vote_message : KVote → Text
unfolding join
vote_message k = join b':' (k.post_id ∷ k.vote ∷ k.mentioned_pubkey ∷ [])

unfoldable pub block_message : KBlock → Text
unfolding join
block_message k = join b':' (k.blocking_action ∷ k.blocked_user_pubkey ∷ [])

unfoldable pub follow_message : KFollow → Text
unfolding join
follow_message k = join b':' (k.following_action ∷ k.followed_user_pubkey ∷ [])
