-- ===== src/Protocol/RoundTrip.antt =====
-- The payload that a front-end writes for an action (PROTOCOL_SPECIFICATIONS.md), and the parser on
-- it.
use k_indexer.Prelude.{
  ◌≡◌, ◌≢◌, refl, ap, ◌∙◌, Bool, true, false, ◌||◌, Option, none, some, List, [], ◌∷◌, ◌++◌, arith,
  All, if◌then◌else◌, Option-cases, inl, inr,
}
use k_indexer.Text.{Text, codes, text_eq, starts_with, is_empty}
use k_indexer.Text.Split.{Lacks, join, split-join}
use k_indexer.Protocol.{
  KActionType, broadcast, post, reply, vote, block, quote, follow, unknown, Json,
}
use k_indexer.Protocol.Parse.{
  ok, part, is_one_of, prefix, parse_action, parse_k_protocol_payload, parse_mentioned_pubkeys,
  pubkeys_or_empty,
}
use k_indexer.Protocol.Messages.{unwrap_or, mentioned_pubkeys_json_str, profile_image_str}

-- The seven names that the parser knows.
abbrev pub is_known : Text → Bool
is_known a =
    text_eq a (codes "broadcast")
    || text_eq a (codes "post")
    || text_eq a (codes "reply")
    || text_eq a (codes "vote")
    || text_eq a (codes "block")
    || text_eq a (codes "quote")
    || text_eq a (codes "follow")

image_of_str :
    (o : Option Text)
    → o ≢ some []
    → (if is_empty (unwrap_or [] o) then none else some (unwrap_or [] o)) ≡ o
image_of_str none h = refl
image_of_str (some []) h = absurd (h refl)
image_of_str (some (c ∷ s)) h = refl

parse_action-unknown :
    (json : Json) (a : Text) (parts : List Text)
    → is_known a ≡ false
    → parse_action json a parts ≡ ok (unknown a)
unfolding parse_action
parse_action-unknown json a parts h = ground arith

module _ (json : Json) where
  pubkeys-json_str :
      (l : List Text)
      → json.to_string l ≢ none
      → pubkeys_or_empty (json.from_str (mentioned_pubkeys_json_str json l)) ≡ l
  unfolding pubkeys_or_empty mentioned_pubkeys_json_str
  pubkeys-json_str l h = elim (Option-cases (json.to_string l)) [
    | inl failed ↦ absurd (h failed)
    | inr (s, printed) ↦ rw (printed, json.from_str-to_string l s printed)
  ]

  -- The fields of the payload, in the order of the specification.
  abbrev pub fields : KActionType → List Text
  fields (broadcast k) =
      codes "broadcast"
      ∷ k.sender_pubkey
      ∷ k.sender_signature
      ∷ k.base64_encoded_nickname
      ∷ profile_image_str k
      ∷ k.base64_encoded_message
      ∷ []
  fields (post k) =
      codes "post"
      ∷ k.sender_pubkey
      ∷ k.sender_signature
      ∷ k.base64_encoded_message
      ∷ mentioned_pubkeys_json_str json k.mentioned_pubkeys
      ∷ []
  fields (reply k) =
      codes "reply"
      ∷ k.sender_pubkey
      ∷ k.sender_signature
      ∷ k.post_id
      ∷ k.base64_encoded_message
      ∷ mentioned_pubkeys_json_str json k.mentioned_pubkeys
      ∷ []
  fields (vote k) =
      codes "vote"
      ∷ k.sender_pubkey
      ∷ k.sender_signature
      ∷ k.post_id
      ∷ k.vote
      ∷ k.mentioned_pubkey
      ∷ []
  fields (block k) =
      codes "block"
      ∷ k.sender_pubkey
      ∷ k.sender_signature
      ∷ k.blocking_action
      ∷ k.blocked_user_pubkey
      ∷ []
  fields (quote k) =
      codes "quote"
      ∷ k.sender_pubkey
      ∷ k.sender_signature
      ∷ k.content_id
      ∷ k.base64_encoded_message
      ∷ k.mentioned_pubkey
      ∷ []
  fields (follow k) =
      codes "follow"
      ∷ k.sender_pubkey
      ∷ k.sender_signature
      ∷ k.following_action
      ∷ k.followed_user_pubkey
      ∷ []
  fields (unknown action) = action ∷ []

  abbrev pub encode : KActionType → Text
  encode a = prefix ++ join b':' (fields a)

  -- What the format can carry besides fields without a colon.
  abbrev pub HasEncodableValues : KActionType → Type 0
  HasEncodableValues (broadcast k) = k.base64_encoded_profile_image ≢ some []
  HasEncodableValues (post k) = json.to_string k.mentioned_pubkeys ≢ none
  HasEncodableValues (reply k) = json.to_string k.mentioned_pubkeys ≢ none
  HasEncodableValues (vote k) = is_one_of (codes "upvote") (codes "downvote") k.vote ≡ true
  HasEncodableValues (block k) =
      is_one_of (codes "block") (codes "unblock") k.blocking_action ≡ true
  HasEncodableValues (quote k) = Unit
  HasEncodableValues (follow k) =
      is_one_of (codes "follow") (codes "unfollow") k.following_action ≡ true
  HasEncodableValues (unknown action) = is_known action ≡ false

  fields-ne-nil : (a : KActionType) → fields a ≢ []
  fields-ne-nil (broadcast k) = cc
  fields-ne-nil _ = cc

  payload_step :
      (ws : List Text)
      → ws ≢ []
      → All (Lacks b':') ws
      → parse_k_protocol_payload json (prefix ++ join b':' ws) ≡ parse_action json (part ws 0) ws
  unfolding parse_k_protocol_payload starts_with
  payload_step [] h a = absurd (h refl)
  payload_step (w ∷ ws) h a = rw (split-join b':' (w ∷ ws) h a)

  parse_action-fields :
      (a : KActionType)
      → HasEncodableValues a
      → parse_action json (part (fields a) 0) (fields a) ≡ ok a
  unfolding parse_action text_eq profile_image_str parse_mentioned_pubkeys
  parse_action-fields (broadcast k) h =
      ap (λ o. ok (broadcast (record k { base64_encoded_profile_image = o })))
        (image_of_str k.base64_encoded_profile_image h)
  parse_action-fields (post k) h =
      ap (λ l. ok (post (record k { mentioned_pubkeys = l })))
        (pubkeys-json_str k.mentioned_pubkeys h)
  parse_action-fields (reply k) h =
      ap (λ l. ok (reply (record k { mentioned_pubkeys = l })))
        (pubkeys-json_str k.mentioned_pubkeys h)
  parse_action-fields (vote k) h = rw h
  parse_action-fields (block k) h = rw h
  parse_action-fields (quote k) h = refl
  parse_action-fields (follow k) h = rw h
  parse_action-fields (unknown action) h = parse_action-unknown json action (action ∷ []) h

  -- An action of any kind, written as the specification says, is what the parser returns: if no
  -- field holds a colon, the choice in a vote, block or follow is one of its two values, the
  -- profile image is absent or not empty, the mentions can be printed as JSON, and an unknown name
  -- is none of the seven.
  pub parse-encode :
      (a : KActionType)
      → All (Lacks b':') (fields a)
      → HasEncodableValues a
      → parse_k_protocol_payload json (encode a) ≡ ok a
  parse-encode a free values =
      payload_step (fields a) (fields-ne-nil a) free ∙ parse_action-fields a values
