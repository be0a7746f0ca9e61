-- ===== src/Store/Invariant.antt =====
-- What the constraints of up.sql and the statements of k_protocol.rs keep true of the tables.
use k_indexer.Prelude.{
  ◌≡◌, refl, Bool, true, false, ◌&&◌, ◌||◌, Option, none, some, List, [], ◌∷◌, All, arith,
  if◌then◌else◌,
}
use k_indexer.Text.{Text, codes, text_eq, text_eq_refl}
use k_indexer.Protocol.Parse.{is_one_of}
use k_indexer.Store.{
  Bytes, BroadcastRow, VoteRow, MentionRow, BlockRow, FollowRow, ContentRow, HashtagRow, Db,
}
use k_indexer.Store.Rows.{any, IsUnique}
use k_indexer.Store.Statements.{
  same_content_signature, same_content_id, same_vote_signature, same_vote_id, same_blocked_user,
  same_block, same_followed_user, same_follow, same_broadcast_id, mentions_of, hashtags_of,
  is_too_long,
}

-- Two broadcasts of one sender.
abbrev pub same_broadcaster : BroadcastRow → BroadcastRow → Bool
same_broadcaster r s = text_eq s.sender_pubkey r.sender_pubkey

-- The row that a hashtag's foreign key names.
abbrev pub is_content_of : HashtagRow → ContentRow → Bool
is_content_of h c = text_eq c.transaction_id h.content_id

-- The row that a hashtag was stored with.
abbrev pub is_tagged_in : HashtagRow → ContentRow → Bool
is_tagged_in h c = is_content_of h c && text_eq c.sender_pubkey h.sender_pubkey

unfoldable pub IsHashtag : List ContentRow → HashtagRow → Type 0
IsHashtag cs h = (any (is_tagged_in h) cs ≡ true) × (is_too_long h.hashtag ≡ false)

-- The row that a mention was stored with.
abbrev pub is_mentioned_in : MentionRow → ContentRow → Bool
is_mentioned_in m c =
    text_eq c.transaction_id m.content_id && text_eq c.sender_pubkey m.sender_pubkey

abbrev pub is_mentioned_by : MentionRow → VoteRow → Bool
is_mentioned_by m v =
    text_eq v.transaction_id m.content_id && text_eq v.sender_pubkey m.sender_pubkey

unfoldable pub IsMention : List ContentRow → List VoteRow → MentionRow → Type 0
IsMention cs vs m = (any (is_mentioned_in m) cs || any (is_mentioned_by m) vs) ≡ true

unfoldable pub IsVote : VoteRow → Type 0
IsVote v = is_one_of (codes "upvote") (codes "downvote") v.vote ≡ true

-- One broadcast per transaction, and one per sender.
abbrev pub AreBroadcasts : List BroadcastRow → Type 0
AreBroadcasts bs = IsUnique same_broadcast_id bs × IsUnique same_broadcaster bs

abbrev pub AreVotes : List VoteRow → Type 0
AreVotes vs = IsUnique same_vote_signature vs × IsUnique same_vote_id vs × All IsVote vs

abbrev pub AreBlocks : List BlockRow → Type 0
AreBlocks bs = IsUnique same_blocked_user bs × IsUnique same_block bs

abbrev pub AreFollows : List FollowRow → Type 0
AreFollows fs = IsUnique same_followed_user fs × IsUnique same_follow fs

abbrev pub AreContents : List ContentRow → Type 0
AreContents cs = IsUnique same_content_signature cs × IsUnique same_content_id cs

pub record IsConsistent (db : Db) : Type 0 where
  pub broadcasts : AreBroadcasts db.k_broadcasts
  pub votes : AreVotes db.k_votes
  pub mentions : All (IsMention db.k_contents db.k_votes) db.k_mentions
  pub blocks : AreBlocks db.k_blocks
  pub follows : AreFollows db.k_follows
  pub contents : AreContents db.k_contents
  pub hashtags : All (IsHashtag db.k_contents) db.k_hashtags

pub hashtags_of-IsHashtag :
    (r : ContentRow) (cs : List ContentRow) (tags : List Text)
    → any is_too_long tags ≡ false
    → All (IsHashtag (r ∷ cs)) (hashtags_of r tags)
unfolding hashtags_of IsHashtag
hashtags_of-IsHashtag r cs [] h = tt
hashtags_of-IsHashtag r cs (tag ∷ tags) h = ground (
  arith,
  text_eq_refl r.transaction_id,
  text_eq_refl r.sender_pubkey,
  hashtags_of-IsHashtag r cs tags,
)

pub mentions_of-IsMention :
    (r : ContentRow) (cs : List ContentRow) (vs : List VoteRow) (ms : List Bytes)
    → All (IsMention (r ∷ cs) vs) (mentions_of r ms)
unfolding mentions_of IsMention
mentions_of-IsMention r cs vs [] = tt
mentions_of-IsMention r cs vs (m ∷ ms) = (
  ground (arith, text_eq_refl r.transaction_id, text_eq_refl r.sender_pubkey),
  mentions_of-IsMention r cs vs ms,
)

pub IsHashtag-∷ :
    (r : ContentRow) (cs : List ContentRow) (h : HashtagRow) → IsHashtag cs h → IsHashtag (r ∷ cs) h
unfolding IsHashtag
IsHashtag-∷ r cs h p = ground arith

pub IsMention-content :
    (r : ContentRow) (cs : List ContentRow) (vs : List VoteRow) (m : MentionRow)
    → IsMention cs vs m
    → IsMention (r ∷ cs) vs m
unfolding IsMention
IsMention-content r cs vs m p = ground arith

pub IsMention-vote :
    (r : VoteRow) (cs : List ContentRow) (vs : List VoteRow) (m : MentionRow)
    → IsMention cs vs m
    → IsMention cs (r ∷ vs) m
unfolding IsMention
IsMention-vote r cs vs m p = ground arith

-- The tables that a statement returns, if it returns some, satisfy a predicate.
pub data IfSome {ℓ κ} {A : Type ℓ} (P : A → Type κ) : Option A → Type (ℓ ⊔ κ) where
  refused : IfSome P none
  holds : {a : A} → P a → IfSome P (some a)

pub IfSome-if {ℓ κ} :
    {A : Type ℓ} {P : A → Type κ} {f g : Option A} (b : Bool)
    → (b ≡ true → IfSome P f)
    → (b ≡ false → IfSome P g)
    → IfSome P (if b then f else g)
IfSome-if true hf hg = hf refl
IfSome-if false hf hg = hg refl
