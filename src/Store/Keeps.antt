-- ===== src/Store/Keeps.antt =====
-- Each statement of k_protocol.rs keeps the tables consistent.
use k_indexer.Prelude.{◌≡◌, refl, Bool, false, not, List, [], ◌∷◌, All-append, All-imp, arith}
use k_indexer.Text.{Text, codes, text_eq, text_eq_refl, text_eq_comm}
use k_indexer.Protocol.Parse.{is_one_of}
use k_indexer.Store.{Bytes, BroadcastRow, VoteRow, BlockRow, FollowRow, ContentRow, Db}
use k_indexer.Store.Rows.{any, where_rows, delete_rows, IsUnique-where_rows, any-where_rows}
use k_indexer.Store.Statements.{
  same_content_signature, same_content_id, same_vote_signature, same_vote_id, same_blocked_user,
  same_block, same_followed_user, same_follow, same_broadcast_id, is_replaced_by, mentions_of,
  hashtags_of, is_too_long, is_block_of, is_follow_of, insert_content, insert_vote,
  replace_broadcast, insert_block, delete_block, insert_follow, delete_follow,
}
use k_indexer.Store.Invariant.{
  same_broadcaster, IsHashtag, IsMention, IsVote, IsConsistent, hashtags_of-IsHashtag,
  mentions_of-IsMention, IsHashtag-∷, IsMention-content, IsMention-vote, IfSome, refused, holds,
  IfSome-if,
}

pub insert_content-IsConsistent :
    (r : ContentRow) (ms : List Bytes) (tags : List Text) (db : Db)
    → IsConsistent db
    → IfSome IsConsistent (insert_content r ms tags db)
unfolding insert_content
insert_content-IsConsistent r ms tags db i =
    IfSome-if (any (same_content_signature r) db.k_contents) (λ _. holds i)
      λ new_signature.
        IfSome-if (any (same_content_id r) db.k_contents) (λ _. refused)
          λ new_id.
            IfSome-if (any is_too_long tags) (λ _. refused)
              λ short. holds record {
                broadcasts = i.broadcasts;
                votes = i.votes;
                mentions =
                    All-append (IsMention (r ∷ db.k_contents) db.k_votes) (mentions_of r ms)
                      db.k_mentions (mentions_of-IsMention r db.k_contents db.k_votes ms)
                      (All-imp db.k_mentions (IsMention-content r db.k_contents db.k_votes)
                        i.mentions);
                blocks = i.blocks;
                follows = i.follows;
                contents = ((new_signature, i.contents.0), (new_id, i.contents.1));
                hashtags =
                    All-append (IsHashtag (r ∷ db.k_contents)) (hashtags_of r tags) db.k_hashtags
                      (hashtags_of-IsHashtag r db.k_contents tags short)
                      (All-imp db.k_hashtags (IsHashtag-∷ r db.k_contents) i.hashtags);
              }

pub insert_vote-IsConsistent :
    (r : VoteRow) (pubkey : Bytes) (db : Db)
    → IsConsistent db
    → IfSome IsConsistent (insert_vote r pubkey db)
unfolding insert_vote IsMention IsVote
insert_vote-IsConsistent r pubkey db i =
    IfSome-if (not (is_one_of (codes "upvote") (codes "downvote") r.vote)) (λ _. refused)
      λ valid.
        IfSome-if (any (same_vote_signature r) db.k_votes) (λ _. holds i)
          λ new_signature.
            IfSome-if (any (same_vote_id r) db.k_votes) (λ _. refused)
              λ new_id. holds record {
                broadcasts = i.broadcasts;
                votes =
                    ((new_signature, i.votes.0), (new_id, i.votes.1), (ground arith, i.votes.2));
                mentions = (
                  ground (arith, text_eq_refl r.transaction_id, text_eq_refl r.sender_pubkey),
                  All-imp db.k_mentions (IsMention-vote r db.k_contents db.k_votes) i.mentions,
                );
                blocks = i.blocks;
                follows = i.follows;
                contents = i.contents;
                hashtags = i.hashtags;
              }

-- When no broadcast has the new transaction, none of the sender's is left.
any-same_broadcaster :
    (r : BroadcastRow) (bs : List BroadcastRow)
    → any (same_broadcast_id r) bs ≡ false
    → any (same_broadcaster r) (delete_rows (is_replaced_by r) bs) ≡ false
unfolding delete_rows where_rows
any-same_broadcaster r [] h = refl
any-same_broadcaster r (b ∷ bs) h =
    ground (arith, any-same_broadcaster r bs, text_eq_comm r.transaction_id b.transaction_id)

pub replace_broadcast-IsConsistent :
    (r : BroadcastRow) (db : Db) → IsConsistent db → IfSome IsConsistent (replace_broadcast r db)
unfolding replace_broadcast delete_rows
replace_broadcast-IsConsistent r db i =
    let kept : BroadcastRow → Bool = λ b. not (is_replaced_by r b) in
    let ids = IsUnique-where_rows same_broadcast_id kept db.k_broadcasts i.broadcasts.0 in
    let broadcasters = IsUnique-where_rows same_broadcaster kept db.k_broadcasts i.broadcasts.1 in
    IfSome-if (any (same_broadcast_id r) db.k_broadcasts)
      (λ _. holds record {
        broadcasts = (ids, broadcasters);
        votes = i.votes;
        mentions = i.mentions;
        blocks = i.blocks;
        follows = i.follows;
        contents = i.contents;
        hashtags = i.hashtags;
      })
      λ new_id. holds record {
        broadcasts = (
          (any-where_rows (same_broadcast_id r) kept db.k_broadcasts new_id, ids),
          (any-same_broadcaster r db.k_broadcasts new_id, broadcasters),
        );
        votes = i.votes;
        mentions = i.mentions;
        blocks = i.blocks;
        follows = i.follows;
        contents = i.contents;
        hashtags = i.hashtags;
      }

pub insert_block-IsConsistent :
    (r : BlockRow) (db : Db) → IsConsistent db → IfSome IsConsistent (insert_block r db)
unfolding insert_block
insert_block-IsConsistent r db i =
    IfSome-if (not (text_eq r.blocking_action (codes "block"))) (λ _. refused)
      λ valid.
        IfSome-if (any (same_blocked_user r) db.k_blocks) (λ _. holds i)
          λ new_pair.
            IfSome-if (any (same_block r) db.k_blocks) (λ _. refused)
              λ new_keys. holds record {
                broadcasts = i.broadcasts;
                votes = i.votes;
                mentions = i.mentions;
                blocks = ((new_pair, i.blocks.0), (new_keys, i.blocks.1));
                follows = i.follows;
                contents = i.contents;
                hashtags = i.hashtags;
              }

pub delete_block-IsConsistent :
    (sender blocked : Bytes) (db : Db)
    → IsConsistent db
    → IfSome IsConsistent (delete_block sender blocked db)
unfolding delete_block delete_rows
delete_block-IsConsistent sender blocked db i =
    let kept : BlockRow → Bool = λ b. not (is_block_of sender blocked b) in
    holds record {
      broadcasts = i.broadcasts;
      votes = i.votes;
      mentions = i.mentions;
      blocks = (
        IsUnique-where_rows same_blocked_user kept db.k_blocks i.blocks.0,
        IsUnique-where_rows same_block kept db.k_blocks i.blocks.1,
      );
      follows = i.follows;
      contents = i.contents;
      hashtags = i.hashtags;
    }

pub insert_follow-IsConsistent :
    (r : FollowRow) (db : Db) → IsConsistent db → IfSome IsConsistent (insert_follow r db)
unfolding insert_follow
insert_follow-IsConsistent r db i =
    IfSome-if (not (text_eq r.following_action (codes "follow"))) (λ _. refused)
      λ valid.
        IfSome-if (any (same_followed_user r) db.k_follows) (λ _. holds i)
          λ new_pair.
            IfSome-if (any (same_follow r) db.k_follows) (λ _. refused)
              λ new_keys. holds record {
                broadcasts = i.broadcasts;
                votes = i.votes;
                mentions = i.mentions;
                blocks = i.blocks;
                follows = ((new_pair, i.follows.0), (new_keys, i.follows.1));
                contents = i.contents;
                hashtags = i.hashtags;
              }

pub delete_follow-IsConsistent :
    (sender followed : Bytes) (db : Db)
    → IsConsistent db
    → IfSome IsConsistent (delete_follow sender followed db)
unfolding delete_follow delete_rows
delete_follow-IsConsistent sender followed db i =
    let kept : FollowRow → Bool = λ b. not (is_follow_of sender followed b) in
    holds record {
      broadcasts = i.broadcasts;
      votes = i.votes;
      mentions = i.mentions;
      blocks = i.blocks;
      follows = (
        IsUnique-where_rows same_followed_user kept db.k_follows i.follows.0,
        IsUnique-where_rows same_follow kept db.k_follows i.follows.1,
      );
      contents = i.contents;
      hashtags = i.hashtags;
    }
