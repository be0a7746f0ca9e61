-- ===== src/Protocol/Parse.antt =====
-- `KProtocolProcessor::parse_k_protocol_payload`, a function for each arm of its match. The index
-- `parts[i]` stands behind a length test in every arm, so the default of `part` is never read.
use k_indexer.Prelude.{
  ℕ, Bool, ◌&&◌, not, Option, none, some, List, [], ltb, if◌then◌else◌, length, get_or, drop,
}
use k_indexer.Text.{Text, codes, text_eq, starts_with, is_empty}
use k_indexer.Text.Split.{split}
use k_indexer.Protocol.{
  KActionType, broadcast, post, reply, vote, block, quote, follow, unknown, Json,
}

-- What the `anyhow!` messages say.
pub data ParseError : Type 0 where
  invalid_prefix : ParseError
  empty_payload : ParseError
  invalid_broadcast_format invalid_post_format invalid_reply_format : ℕ → ParseError
  invalid_vote_format invalid_block_format invalid_quote_format : ℕ → ParseError
  invalid_follow_format : ℕ → ParseError
  invalid_vote_value invalid_blocking_action invalid_following_action : Text → ParseError

pub data Parsed : Type 0 where
  ok : KActionType → Parsed
  err : ParseError → Parsed

abbrev pub part : List Text → ℕ → Text
part parts i = get_or parts i []

-- The two values that an action with a choice may have.
unfoldable pub is_one_of : Text → Text → Text → Bool
is_one_of a b s = not (not (text_eq s a) && not (text_eq s b))

unfoldable pub parse_broadcast : List Text → Parsed
parse_broadcast parts =
    if ltb (length parts) 6
    then err (invalid_broadcast_format (length parts))
    else ok (
        broadcast (record {
          sender_pubkey = part parts 1;
          sender_signature = part parts 2;
          base64_encoded_nickname = part parts 3;
          base64_encoded_profile_image =
              if is_empty (part parts 4) then none else some (part parts 4);
          base64_encoded_message = part parts 5;
        }))

-- The list of mentions, empty when the text is no JSON list of strings.
unfoldable pub pubkeys_or_empty : Option (List Text) → List Text
pubkeys_or_empty none = []
pubkeys_or_empty (some pubkeys) = pubkeys

module _ (json : Json) where
  -- The optional part at index `i`.
  unfoldable pub parse_mentioned_pubkeys : List Text → ℕ → List Text
  unfolding pubkeys_or_empty
  parse_mentioned_pubkeys parts i =
      if ltb i (length parts) then pubkeys_or_empty (json.from_str (part parts i)) else []

  unfoldable pub parse_post : List Text → Parsed
  parse_post parts =
      if ltb (length parts) 4
      then err (invalid_post_format (length parts))
      else ok (
          post (record {
            sender_pubkey = part parts 1;
            sender_signature = part parts 2;
            base64_encoded_message = part parts 3;
            mentioned_pubkeys = parse_mentioned_pubkeys parts 4;
          }))

  unfoldable pub parse_reply : List Text → Parsed
  parse_reply parts =
      if ltb (length parts) 5
      then err (invalid_reply_format (length parts))
      else ok (
          reply (record {
            sender_pubkey = part parts 1;
            sender_signature = part parts 2;
            post_id = part parts 3;
            base64_encoded_message = part parts 4;
            mentioned_pubkeys = parse_mentioned_pubkeys parts 5;
          }))

unfoldable pub parse_vote : List Text → Parsed
unfolding is_one_of
parse_vote parts =
    if ltb (length parts) 6
    then err (invalid_vote_format (length parts))
    else if not (is_one_of (codes "upvote") (codes "downvote") (part parts 4))
    then err (invalid_vote_value (part parts 4))
    else ok (
        vote (record {
          sender_pubkey = part parts 1;
          sender_signature = part parts 2;
          post_id = part parts 3;
          vote = part parts 4;
          mentioned_pubkey = part parts 5;
        }))

unfoldable pub parse_block : List Text → Parsed
unfolding is_one_of
parse_block parts =
    if ltb (length parts) 5
    then err (invalid_block_format (length parts))
    else if not (is_one_of (codes "block") (codes "unblock") (part parts 3))
    then err (invalid_blocking_action (part parts 3))
    else ok (
        block (record {
          sender_pubkey = part parts 1;
          sender_signature = part parts 2;
          blocking_action = part parts 3;
          blocked_user_pubkey = part parts 4;
        }))

unfoldable pub parse_quote : List Text → Parsed
parse_quote parts =
    if ltb (length parts) 6
    then err (invalid_quote_format (length parts))
    else ok (
        quote (record {
          sender_pubkey = part parts 1;
          sender_signature = part parts 2;
          content_id = part parts 3;
          base64_encoded_message = part parts 4;
          mentioned_pubkey = part parts 5;
        }))

unfoldable pub parse_follow : List Text → Parsed
unfolding is_one_of
parse_follow parts =
    if ltb (length parts) 5
    then err (invalid_follow_format (length parts))
    else if not (is_one_of (codes "follow") (codes "unfollow") (part parts 3))
    then err (invalid_following_action (part parts 3))
    else ok (
        follow (record {
          sender_pubkey = part parts 1;
          sender_signature = part parts 2;
          following_action = part parts 3;
          followed_user_pubkey = part parts 4;
        }))

abbrev pub prefix : Text
prefix = codes "k:1:"

module _ (json : Json) where
  -- The match on `parts[0]`.
  unfoldable pub parse_action : Text → List Text → Parsed
  unfolding parse_broadcast parse_post parse_reply parse_vote parse_block parse_quote parse_follow
  parse_action action parts =
      if text_eq action (codes "broadcast")
      then parse_broadcast parts
      else if text_eq action (codes "post")
      then parse_post json parts
      else if text_eq action (codes "reply")
      then parse_reply json parts
      else if text_eq action (codes "vote")
      then parse_vote parts
      else if text_eq action (codes "block")
      then parse_block parts
      else if text_eq action (codes "quote")
      then parse_quote parts
      else if text_eq action (codes "follow")
      then parse_follow parts
      else ok (unknown action)

  unfoldable pub parse_k_protocol_payload : Text → Parsed
  parse_k_protocol_payload payload =
      if not (starts_with payload prefix)
      then err invalid_prefix
      else let parts = split b':' (drop 4 payload) in
        if is_empty parts then err empty_payload else parse_action (part parts 0) parts
