-- ===== src/Save/Signed/Rows.antt =====
-- What it is for the rows that an insert makes to be signed: the mentions and hashtags with their content
-- or vote.
use k_indexer.Prelude.{◌≡◌, true, some, List, [], ◌∷◌, ◌++◌, All, arith}
use k_indexer.Text.{Text, text_eq, text_eq_refl}
use k_indexer.Store.Rows.{any}
use k_indexer.Store.Statements.{mentions_of, hashtags_of, mention_of_vote}
use k_indexer.Text.Split.{join}
use k_indexer.Protocol.Messages.{mentioned_pubkeys_json_str}
use k_indexer.Store.{Bytes, VoteRow, ContentRow, MentionRow, HashtagRow}
use k_indexer.Save.{Libs, decode_all, hashtags_in}
use k_indexer.Save.Signed.{IsSigned, IsSignedContent, IsSignedVote}

module _ {Key : Type 0} (libs : Libs Key) where
  -- A mention whose sender signed a message that ends in it, or in the list that it is in.
  pub data IsSignedMention (m : MentionRow) : Type 0 where
    listed :
        (before mentions : List Text) (pubkeys : List Bytes) (signature : Bytes)
        → decode_all libs mentions ≡ some pubkeys
        → any (text_eq m.mentioned_pubkey) pubkeys ≡ true
        → IsSigned libs
            (join b':' (before ++ mentioned_pubkeys_json_str libs.json mentions ∷ []))
            signature
            m.sender_pubkey
        → IsSignedMention m
    named :
        (before : List Text) (mentioned_pubkey : Text) (signature : Bytes)
        → libs.hex.decode mentioned_pubkey ≡ some m.mentioned_pubkey
        → IsSigned libs (join b':' (before ++ mentioned_pubkey ∷ [])) signature m.sender_pubkey
        → IsSignedMention m

  -- A hashtag that the extractor finds in a text that its sender signed.
  pub record IsSignedHashtag (h : HashtagRow) : Type 0 where
    pub before : List Text
    pub message : Text
    pub after : List Text
    pub signature : Bytes
    pub is_found : any (text_eq h.hashtag) (hashtags_in libs message) ≡ true
    pub signed : IsSigned libs (join b':' (before ++ message ∷ after)) signature h.sender_pubkey

  -- The rows that the insert of a content makes.
  pub record AreSignedRows (r : ContentRow) (ms : List Bytes) (ts : List Text) : Type 0 where
    pub content : IsSignedContent libs r
    pub mentions : All IsSignedMention (mentions_of r ms)
    pub hashtags : All IsSignedHashtag (hashtags_of r ts)

  -- The rows that the insert of a vote makes.
  pub record AreSignedVoteRows (r : VoteRow) (pubkey : Bytes) : Type 0 where
    pub vote : IsSignedVote libs r
    pub mention : IsSignedMention (mention_of_vote r pubkey)

  pub mentions_of-IsSignedMention :
      (r : ContentRow) (before mentions : List Text) (pubkeys : List Bytes)
      → decode_all libs mentions ≡ some pubkeys
      → IsSigned libs
          (join b':' (before ++ mentioned_pubkeys_json_str libs.json mentions ∷ []))
          r.sender_signature
          r.sender_pubkey
      → (qs : List Bytes) → All (λ q. any (text_eq q) pubkeys ≡ true) qs
      → All IsSignedMention (mentions_of r qs)
  unfolding mentions_of
  mentions_of-IsSignedMention r before mentions pubkeys d s [] h = tt
  mentions_of-IsSignedMention r before mentions pubkeys d s (q ∷ qs) h = (
    listed before mentions pubkeys r.sender_signature d h.0 s,
    mentions_of-IsSignedMention r before mentions pubkeys d s qs h.1,
  )

  pub hashtags_of-IsSignedHashtag :
      (r : ContentRow) (before : List Text) (message : Text) (after : List Text)
      → IsSigned libs (join b':' (before ++ message ∷ after)) r.sender_signature r.sender_pubkey
      → (ts : List Text) → All (λ t. any (text_eq t) (hashtags_in libs message) ≡ true) ts
      → All IsSignedHashtag (hashtags_of r ts)
  unfolding hashtags_of
  hashtags_of-IsSignedHashtag r before message after s [] h = tt
  hashtags_of-IsSignedHashtag r before message after s (t ∷ ts) h = (
    record {
      before = before;
      message = message;
      after = after;
      signature = r.sender_signature;
      is_found = h.0;
      signed = s;
    },
    hashtags_of-IsSignedHashtag r before message after s ts h.1,
  )

any-tail :
    (x : Text) (xs ts : List Text)
    → All (λ t. any (text_eq t) xs ≡ true) ts
    → All (λ t. any (text_eq t) (x ∷ xs) ≡ true) ts
any-tail x xs [] h = tt
any-tail x xs (t ∷ ts) h = (ground (arith, h.0), any-tail x xs ts h.1)

-- Every member of a list is in it.
pub All-any : (ts : List Text) → All (λ t. any (text_eq t) ts ≡ true) ts
All-any [] = tt
All-any (t ∷ ts) = (ground (arith, text_eq_refl t), any-tail t ts ts (All-any ts))
