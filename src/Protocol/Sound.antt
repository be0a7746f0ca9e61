-- ===== src/Protocol/Sound.antt =====
-- What every action that the parser returns has in common.
use k_indexer.Prelude.{
  ℕ, zero, suc, ◌≡◌, ◌≢◌, refl, subst, Bool, true, false, not, none, some, List, [], ◌∷◌, arith,
  All, if◌then◌else◌, drop,
}
use k_indexer.Text.{Text, codes, starts_with, is_empty}
use k_indexer.Text.Split.{Lacks, split, Lacks-split}
use k_indexer.Protocol.{
  KActionType, broadcast, post, reply, vote, block, quote, follow, unknown, Json,
}
use k_indexer.Protocol.Parse.{
  ParseError, invalid_prefix, empty_payload, Parsed, ok, err, part, is_one_of, prefix,
  parse_broadcast, parse_post, parse_reply, parse_vote, parse_block, parse_quote, parse_follow,
  parse_action, parse_k_protocol_payload,
}

abbrev select : (ℕ → Text) → List ℕ → List Text
select f [] = []
select f (i ∷ is) = f i ∷ select f is

-- The fields that are texts of the payload hold no colon, and a choice is one of its two values.
abbrev pub IsParsed : KActionType → Type 0
IsParsed (broadcast k) =
    All (Lacks b':') (
      k.sender_pubkey ∷ k.sender_signature ∷ k.base64_encoded_nickname ∷ k.base64_encoded_message
      ∷ [])
    × (k.base64_encoded_profile_image ≢ some [])
    × ((s : Text) → k.base64_encoded_profile_image ≡ some s → Lacks b':' s)
IsParsed (post k) =
    All (Lacks b':') (k.sender_pubkey ∷ k.sender_signature ∷ k.base64_encoded_message ∷ [])
IsParsed (reply k) =
    All (Lacks b':')
      (k.sender_pubkey ∷ k.sender_signature ∷ k.post_id ∷ k.base64_encoded_message ∷ [])
IsParsed (vote k) =
    All (Lacks b':')
      (k.sender_pubkey ∷ k.sender_signature ∷ k.post_id ∷ k.vote ∷ k.mentioned_pubkey ∷ [])
    × (is_one_of (codes "upvote") (codes "downvote") k.vote ≡ true)
IsParsed (block k) =
    All (Lacks b':')
      (k.sender_pubkey ∷ k.sender_signature ∷ k.blocking_action ∷ k.blocked_user_pubkey ∷ [])
    × (is_one_of (codes "block") (codes "unblock") k.blocking_action ≡ true)
IsParsed (quote k) = All (Lacks b':') (
    k.sender_pubkey ∷ k.sender_signature ∷ k.content_id ∷ k.base64_encoded_message
    ∷ k.mentioned_pubkey ∷ [])
IsParsed (follow k) =
    All (Lacks b':')
      (k.sender_pubkey ∷ k.sender_signature ∷ k.following_action ∷ k.followed_user_pubkey ∷ [])
    × (is_one_of (codes "follow") (codes "unfollow") k.following_action ≡ true)
IsParsed (unknown action) = Lacks b':' action

-- `P` of a result, if there is one.
Ensures : (KActionType → Type 0) → Parsed → Type 0
Ensures P (ok a) = P a
Ensures P (err e) = Unit

abbrev Clean : List Text → Type 0
Clean = All (Lacks b':')

Lacks-part : (ws : List Text) (i : ℕ) → Clean ws → Lacks b':' (part ws i)
Lacks-part [] i h = tt
Lacks-part (w ∷ ws) zero h = h.0
Lacks-part (w ∷ ws) (suc i) h = Lacks-part ws i h.1

Clean-parts : (ws : List Text) (is : List ℕ) → Clean ws → Clean (select (part ws) is)
Clean-parts ws [] h = tt
Clean-parts ws (i ∷ is) h = (Lacks-part ws i h, Clean-parts ws is h)

Lacks-of-some : (s t : Text) → some s ≡ some t → Lacks b':' s → Lacks b':' t
Lacks-of-some s t e h = let same : s ≡ t = cc in subst (Lacks b':') same h

image-IsParsed :
    (s : Text)
    → Lacks b':' s
    → ((if is_empty s then none else some s) ≢ some [])
      × ((t : Text) → (if is_empty s then none else some s) ≡ some t → Lacks b':' t)
image-IsParsed [] h = (cc, λ t e. cc)
image-IsParsed (c ∷ s) h = (ground arith, λ t e. Lacks-of-some (c ∷ s) t e h)

Ensures-ok : (P : KActionType → Type 0) (a : KActionType) → P a → Ensures P (ok a)
unfolding Ensures
Ensures-ok P a h = h

Ensures-err : (P : KActionType → Type 0) (e : ParseError) → Ensures P (err e)
unfolding Ensures
Ensures-err P e = tt

Ensures-apply :
    (P : KActionType → Type 0) (r : Parsed) (a : KActionType) → r ≡ ok a → Ensures P r → P a
unfolding Ensures
Ensures-apply P r a e h = subst (Ensures P) e h

-- A result behind a length test, and behind a test on a choice.
Ensures-guard :
    (P : KActionType → Type 0) (short : Bool) (e : ParseError) (r : Parsed)
    → Ensures P r
    → Ensures P (if short then err e else r)
Ensures-guard P true e r h = Ensures-err P e
Ensures-guard P false e r h = h

Ensures-choice :
    (P : KActionType → Type 0) (valid : Bool) (e : ParseError) (a : KActionType)
    → (valid ≡ true → P a)
    → Ensures P (if not valid then err e else ok a)
Ensures-choice P true e a h = Ensures-ok P a (h refl)
Ensures-choice P false e a h = Ensures-err P e

Ensures-if :
    (P : KActionType → Type 0) (b : Bool) (r r' : Parsed)
    → Ensures P r
    → Ensures P r'
    → Ensures P (if b then r else r')
Ensures-if P true r r' h h' = h
Ensures-if P false r r' h h' = h'

module _ (json : Json) (parts : List Text) (clean : Clean parts) where
  colonless_at : (is : List ℕ) → Clean (select (part parts) is)
  colonless_at is = Clean-parts parts is clean

  parse_broadcast-IsParsed : Ensures IsParsed (parse_broadcast parts)
  unfolding parse_broadcast
  parse_broadcast-IsParsed =
      let (img, from) = image-IsParsed (part parts 4) (Lacks-part parts 4 clean) in
      Ensures-guard IsParsed _ _ _
        (Ensures-ok IsParsed _ (colonless_at (1 ∷ 2 ∷ 3 ∷ 5 ∷ []), img, from))

  parse_post-IsParsed : Ensures IsParsed (parse_post json parts)
  unfolding parse_post
  parse_post-IsParsed =
      Ensures-guard IsParsed _ _ _ (Ensures-ok IsParsed _ (colonless_at (1 ∷ 2 ∷ 3 ∷ [])))

  parse_reply-IsParsed : Ensures IsParsed (parse_reply json parts)
  unfolding parse_reply
  parse_reply-IsParsed =
      Ensures-guard IsParsed _ _ _ (Ensures-ok IsParsed _ (colonless_at (1 ∷ 2 ∷ 3 ∷ 4 ∷ [])))

  parse_vote-IsParsed : Ensures IsParsed (parse_vote parts)
  unfolding parse_vote
  parse_vote-IsParsed =
      Ensures-guard IsParsed _ _ _
        (Ensures-choice IsParsed _ _ _ (λ valid. (colonless_at (1 ∷ 2 ∷ 3 ∷ 4 ∷ 5 ∷ []), valid)))

  parse_block-IsParsed : Ensures IsParsed (parse_block parts)
  unfolding parse_block
  parse_block-IsParsed =
      Ensures-guard IsParsed _ _ _
        (Ensures-choice IsParsed _ _ _ (λ valid. (colonless_at (1 ∷ 2 ∷ 3 ∷ 4 ∷ []), valid)))

  parse_quote-IsParsed : Ensures IsParsed (parse_quote parts)
  unfolding parse_quote
  parse_quote-IsParsed =
      Ensures-guard IsParsed _ _ _ (Ensures-ok IsParsed _ (colonless_at (1 ∷ 2 ∷ 3 ∷ 4 ∷ 5 ∷ [])))

  parse_follow-IsParsed : Ensures IsParsed (parse_follow parts)
  unfolding parse_follow
  parse_follow-IsParsed =
      Ensures-guard IsParsed _ _ _
        (Ensures-choice IsParsed _ _ _ (λ valid. (colonless_at (1 ∷ 2 ∷ 3 ∷ 4 ∷ []), valid)))

  parse_action-IsParsed :
      (action : Text) → Lacks b':' action → Ensures IsParsed (parse_action json action parts)
  unfolding parse_action
  parse_action-IsParsed action h = Ensures-if IsParsed _ _ _ parse_broadcast-IsParsed (
      Ensures-if IsParsed _ _ _ parse_post-IsParsed (
        Ensures-if IsParsed _ _ _ parse_reply-IsParsed (
          Ensures-if IsParsed _ _ _ parse_vote-IsParsed (
            Ensures-if IsParsed _ _ _ parse_block-IsParsed (
              Ensures-if IsParsed _ _ _ parse_quote-IsParsed
                (Ensures-if IsParsed _ _ _ parse_follow-IsParsed (Ensures-ok IsParsed _ h)))))))

payload-IsParsed : (json : Json) (s : Text) → Ensures IsParsed (parse_k_protocol_payload json s)
unfolding parse_k_protocol_payload
payload-IsParsed json s =
    let clean = Lacks-split b':' (drop 4 s) in
    Ensures-guard IsParsed (not (starts_with s prefix)) invalid_prefix _ (
      Ensures-guard IsParsed (is_empty (split b':' (drop 4 s))) empty_payload _
        (parse_action-IsParsed json (split b':' (drop 4 s)) clean _ (Lacks-part _ 0 clean)))

-- Whatever the payload, an action that the parser returns has no colon in the fields that it takes
-- from the text, no empty profile image, and in a vote, block or follow one of the two values.
pub parse-IsParsed :
    (json : Json) (payload : Text) (a : KActionType)
    → parse_k_protocol_payload json payload ≡ ok a
    → IsParsed a
parse-IsParsed json payload a h = Ensures-apply IsParsed _ a h (payload-IsParsed json payload)
