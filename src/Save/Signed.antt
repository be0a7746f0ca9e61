-- ===== src/Save/Signed.antt =====
-- What it is for a stored row to be signed: its signature verifies under its sender's key, over a
-- message that holds the row's data.
pub mod Rows
use k_indexer.Prelude.{
  ◌≡◌, Option-cases, inl, inr, true, false, Option, none, some, List, [], ◌∷◌, ◌++◌, All, ◌||◌,
  arith,
}
use k_indexer.Text.{Text, text_eq, text_eq_refl}
use k_indexer.Store.Rows.{any}
use k_indexer.Store.Statements.{mentions_of, hashtags_of, mention_of_vote}
use k_indexer.Text.Split.{join}
use k_indexer.Protocol.Messages.{unwrap_or, mentioned_pubkeys_json_str}
use k_indexer.Store.{
  Bytes, BroadcastRow, VoteRow, BlockRow, FollowRow, ContentRow, ContentType, MentionRow,
  HashtagRow,
}
use k_indexer.Save.{
  Libs, ◌>>=◌, x_only_bytes, schnorr_bytes, check_signature, verify_kaspa_signature, decode_all,
  hashtags_in,
}

schnorr_bytes-same : (signature sb : Bytes) → schnorr_bytes signature ≡ some sb → sb ≡ signature
unfolding schnorr_bytes
schnorr_bytes-same signature sb h = ground arith

module _ {Key : Type 0} (libs : Libs Key) where
  -- The bytes are a signature of the message under the key that the sender's bytes hold.
  pub record IsSigned (message : Text) (signature pubkey : Bytes) : Type 0 where
    pub x_only : Bytes
    pub key : Key
    pub is_schnorr : schnorr_bytes signature ≡ some signature
    pub is_x_only : x_only_bytes pubkey ≡ some x_only
    pub is_key : libs.kaspa.from_slice x_only ≡ some key
    pub verifies : libs.kaspa.verify_message message signature key ≡ true

  -- The check on bytes that were decoded.
  verified-IsSigned :
      (message : Text) (signature pubkey : Bytes) (sig key_bytes : Option Bytes)
      → schnorr_bytes signature ≡ sig
      → x_only_bytes pubkey ≡ key_bytes
      → unwrap_or false (
          sig >>= λ sb. key_bytes >>= λ kb.
          libs.kaspa.from_slice kb >>= λ key. some (libs.kaspa.verify_message message sb key))
        ≡ true
      → IsSigned message signature pubkey
  verified-IsSigned message signature pubkey none key_bytes hs hk h = absurd (cc)
  verified-IsSigned message signature pubkey (some sb) none hs hk h = absurd (cc)
  verified-IsSigned message signature pubkey (some sb) (some kb) hs hk h =
      elim (Option-cases (libs.kaspa.from_slice kb)) [
        | inl e ↦ absurd (cc)
        | inr (key, e) ↦
            let same : sb ≡ signature = schnorr_bytes-same signature sb hs in
            record {
              x_only = kb;
              key = key;
              is_schnorr = cc;
              is_x_only = hk;
              is_key = e;
              verifies = cc;
            }
      ]

  pub verify-IsSigned :
      (message s p : Text) (signature pubkey : Bytes)
      → libs.hex.decode s ≡ some signature
      → libs.hex.decode p ≡ some pubkey
      → verify_kaspa_signature libs message s p ≡ true
      → IsSigned message signature pubkey
  unfolding verify_kaspa_signature check_signature
  verify-IsSigned message s p signature pubkey hs hp h =
      verified-IsSigned message signature pubkey (libs.hex.decode s >>= schnorr_bytes)
        (libs.hex.decode p >>= x_only_bytes) (cc) (cc) h

  unfoldable pub IsSignedBroadcast : BroadcastRow → Type 0
  IsSignedBroadcast r =
      IsSigned
        (join b':' (
          r.base64_encoded_nickname
          ∷ unwrap_or [] r.base64_encoded_profile_image
          ∷ r.base64_encoded_message
          ∷ []))
        r.sender_signature r.sender_pubkey

  pub record IsSignedVote (r : VoteRow) : Type 0 where
    pub post_id : Text
    pub mentioned_pubkey : Text
    pub is_post_id : libs.hex.decode post_id ≡ some r.post_id
    pub signed :
        IsSigned
          (join b':' (post_id ∷ r.vote ∷ mentioned_pubkey ∷ []))
          r.sender_signature
          r.sender_pubkey

  pub record IsSignedBlock (r : BlockRow) : Type 0 where
    pub blocked_user : Text
    pub is_blocked_user : libs.hex.decode blocked_user ≡ some r.blocked_user_pubkey
    pub signed :
        IsSigned
          (join b':' (r.blocking_action ∷ blocked_user ∷ []))
          r.sender_signature
          r.sender_pubkey

  pub record IsSignedFollow (r : FollowRow) : Type 0 where
    pub followed_user : Text
    pub is_followed_user : libs.hex.decode followed_user ≡ some r.followed_user_pubkey
    pub signed :
        IsSigned
          (join b':' (r.following_action ∷ followed_user ∷ []))
          r.sender_signature
          r.sender_pubkey

  -- A post's message ends in its mentions; a reply's and a quote's begins with the content that it
  -- refers to.
  pub data IsSignedContent (r : ContentRow) : Type 0 where
    signed_post :
        (mentions : Text)
        → r.content_type ≡ ContentType.post
        → IsSigned
            (join b':' (r.base64_encoded_message ∷ mentions ∷ []))
            r.sender_signature
            r.sender_pubkey
        → IsSignedContent r
    signed_reply :
        (post_id mentions : Text)
        → r.content_type ≡ ContentType.reply
        → libs.hex.decode post_id ≡ r.referenced_content_id
        → IsSigned
            (join b':' (post_id ∷ r.base64_encoded_message ∷ mentions ∷ []))
            r.sender_signature
            r.sender_pubkey
        → IsSignedContent r
    signed_quote :
        (content_id mentioned_pubkey : Text)
        → r.content_type ≡ ContentType.quote
        → libs.hex.decode content_id ≡ r.referenced_content_id
        → IsSigned
            (join b':' (content_id ∷ r.base64_encoded_message ∷ mentioned_pubkey ∷ []))
            r.sender_signature
            r.sender_pubkey
        → IsSignedContent r
