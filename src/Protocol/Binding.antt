-- ===== src/Protocol/Binding.antt =====
-- What a sender's signature binds: the message that is verified, against the action that carries it.
use k_indexer.Prelude.{
  ℕ, ◌≡◌, ◌≢◌, refl, ap, Option, none, some, List, [], ◌∷◌, arith, Option-cases, inl, inr,
}
use k_indexer.Text.{Text}
use k_indexer.Text.Split.{Lacks, join_injective}
use k_indexer.Protocol.{
  KVote, KQuote, KActionType, broadcast, post, reply, vote, block, quote, follow, unknown, Json,
}
use k_indexer.Protocol.Parse.{ok, parse_k_protocol_payload}
use k_indexer.Protocol.Messages.{
  unwrap_or, mentioned_pubkeys_json_str, profile_image_str, post_message, reply_message,
  quote_message, broadcast_message, vote_message, block_message, follow_message,
}
use k_indexer.Protocol.RoundTrip.{encode, parse-encode}
use k_indexer.Protocol.Sound.{IsParsed, parse-IsParsed}

-- The number of the constructor.
abbrev pub kind : KActionType → ℕ
kind (broadcast _) = 0
kind (post _) = 1
kind (reply _) = 2
kind (vote _) = 3
kind (block _) = 4
kind (quote _) = 5
kind (follow _) = 6
kind (unknown _) = 7

-- The action without the sender's key and signature.
abbrev pub content : KActionType → KActionType
content (broadcast k) = broadcast (record k { sender_pubkey = []; sender_signature = [] })
content (post k) = post (record k { sender_pubkey = []; sender_signature = [] })
content (reply k) = reply (record k { sender_pubkey = []; sender_signature = [] })
content (vote k) = vote (record k { sender_pubkey = []; sender_signature = [] })
content (block k) = block (record k { sender_pubkey = []; sender_signature = [] })
content (quote k) = quote (record k { sender_pubkey = []; sender_signature = [] })
content (follow k) = follow (record k { sender_pubkey = []; sender_signature = [] })
content (unknown action) = unknown []

str_injective :
    (o p : Option Text) → o ≢ some [] → p ≢ some [] → unwrap_or [] o ≡ unwrap_or [] p → o ≡ p
str_injective none none h k e = refl
str_injective none (some []) h k e = absurd (k refl)
str_injective none (some (c ∷ s)) h k e = cc
str_injective (some []) p h k e = absurd (h refl)
str_injective (some (c ∷ s)) none h k e = cc
str_injective (some (c ∷ s)) (some t) h k e = ap some e

Lacks-str :
    (o : Option Text) → ((s : Text) → o ≡ some s → Lacks b':' s) → Lacks b':' (unwrap_or [] o)
Lacks-str none h = tt
Lacks-str (some s) h = h s refl

module _ (json : Json) where
  -- The message that is verified for an action; an unknown one is not verified.
  abbrev pub message : KActionType → Text
  message (broadcast k) = broadcast_message k
  message (post k) = post_message json k
  message (reply k) = reply_message json k
  message (vote k) = vote_message k
  message (block k) = block_message k
  message (quote k) = quote_message k
  message (follow k) = follow_message k
  message (unknown action) = []

  -- The mentions of a post or a reply can be printed.
  abbrev pub PrintsMentions : KActionType → Type 0
  PrintsMentions (post k) = json.to_string k.mentioned_pubkeys ≢ none
  PrintsMentions (reply k) = json.to_string k.mentioned_pubkeys ≢ none
  PrintsMentions _ = Unit

  json_str_injective :
      (l m : List Text)
      → json.to_string l ≢ none
      → json.to_string m ≢ none
      → mentioned_pubkeys_json_str json l ≡ mentioned_pubkeys_json_str json m
      → l ≡ m
  unfolding mentioned_pubkeys_json_str
  json_str_injective l m hl hm e = elim (Option-cases (json.to_string l)) [
    | inl failed ↦ absurd (hl failed)
    | inr (s, ps) ↦ elim (Option-cases (json.to_string m)) [
      | inl failed ↦ absurd (hm failed)
      | inr (t, pt) ↦ cc (json.from_str-to_string l s ps, json.from_str-to_string m t pt)
    ]
  ]

  message_binds :
      (a b : KActionType)
      → IsParsed a
      → IsParsed b
      → PrintsMentions a
      → PrintsMentions b
      → kind a ≡ kind b
      → message a ≡ message b
      → content a ≡ content b
  unfolding broadcast_message profile_image_str post_message reply_message vote_message
      block_message quote_message follow_message
  message_binds (broadcast k) (broadcast l) (h, ih, lh) (h', ih', lh') _ _ _ e =
      let (nick, e') = join_injective b':' _ _ _ _ h.1.1.0 h'.1.1.0 e in
      let (img, msg) = join_injective b':' _ _ _ _ (Lacks-str _ lh) (Lacks-str _ lh') e' in
      let img' = str_injective _ _ ih ih' img in cc (nick, img', msg)
  message_binds (post k) (post l) h h' p p' _ e =
      let (msg, str) = join_injective b':' _ _ _ _ h.1.1.0 h'.1.1.0 e in
      let list = json_str_injective _ _ p p' str in cc (msg, list)
  message_binds (reply k) (reply l) h h' p p' _ e =
      let (id, e') = join_injective b':' _ _ _ _ h.1.1.0 h'.1.1.0 e in
      let (msg, str) = join_injective b':' _ _ _ _ h.1.1.1.0 h'.1.1.1.0 e' in
      let list = json_str_injective _ _ p p' str in cc (id, msg, list)
  message_binds (vote k) (vote l) (h, _) (h', _) _ _ _ e =
      let (id, e') = join_injective b':' _ _ _ _ h.1.1.0 h'.1.1.0 e in
      let (value, key) = join_injective b':' _ _ _ _ h.1.1.1.0 h'.1.1.1.0 e' in cc (id, value, key)
  message_binds (block k) (block l) (h, _) (h', _) _ _ _ e =
      let (action, key) = join_injective b':' _ _ _ _ h.1.1.0 h'.1.1.0 e in cc (action, key)
  message_binds (quote k) (quote l) h h' _ _ _ e =
      let (id, e') = join_injective b':' _ _ _ _ h.1.1.0 h'.1.1.0 e in
      let (msg, key) = join_injective b':' _ _ _ _ h.1.1.1.0 h'.1.1.1.0 e' in cc (id, msg, key)
  message_binds (follow k) (follow l) (h, _) (h', _) _ _ _ e =
      let (action, key) = join_injective b':' _ _ _ _ h.1.1.0 h'.1.1.0 e in cc (action, key)
  message_binds (unknown a) (unknown b) _ _ _ _ _ _ = refl
  message_binds _ _ _ _ _ _ e _ = absurd (omega arith)

-- Two payloads whose actions are of one kind and whose senders signed one message carry the same
-- action, up to the sender's key and signature: no field can be shifted into another.
pub signature_binds_content :
    (json : Json) (payload payload' : Text) (a b : KActionType)
    → parse_k_protocol_payload json payload ≡ ok a
    → parse_k_protocol_payload json payload' ≡ ok b
    → PrintsMentions json a
    → PrintsMentions json b
    → kind a ≡ kind b
    → message json a ≡ message json b
    → content a ≡ content b
signature_binds_content json payload payload' a b h h' p p' =
    message_binds json a b (parse-IsParsed json payload a h) (parse-IsParsed json payload' b h') p
      p'

-- The quote that carries a vote's texts.
abbrev pub as_quote : KVote → KQuote
as_quote k = record {
  sender_pubkey = k.sender_pubkey;
  sender_signature = k.sender_signature;
  content_id = k.post_id;
  base64_encoded_message = k.vote;
  mentioned_pubkey = k.mentioned_pubkey;
}

-- The signed message does not name the action: for every vote that the parser returns there is a
-- payload that parses to a quote of the same content with the same sender, signature and signed
-- message.
pub vote_replays_as_quote :
    (json : Json) (payload : Text) (k : KVote)
    → parse_k_protocol_payload json payload ≡ ok (vote k)
    → (parse_k_protocol_payload json (encode json (quote (as_quote k))) ≡ ok (quote (as_quote k)))
      × (message json (quote (as_quote k)) ≡ message json (vote k))
unfolding quote_message vote_message
vote_replays_as_quote json payload k h =
    let (free, _) = parse-IsParsed json payload (vote k) h in
    (parse-encode json (quote (as_quote k)) (omega arith, free) tt, refl)
