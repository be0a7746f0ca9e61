-- ===== src/Save/Authentic.antt =====
-- Signatures: what is stored is signed, and an action whose signature fails changes nothing.
use k_indexer.Prelude.{◌≡◌, Option, some, not, All, All-append}
use k_indexer.Text.{codes, text_eq}
use k_indexer.Protocol.Parse.{is_one_of}
use k_indexer.Store.{Db, empty_db}
use k_indexer.Store.Rows.{any, delete_rows, All-where_rows}
use k_indexer.Store.Statements.{
  mentions_of, hashtags_of, insert_content, insert_vote, replace_broadcast, insert_block,
  delete_block, insert_follow, delete_follow, same_content_signature, same_content_id,
  same_vote_signature, same_vote_id, same_broadcast_id, same_blocked_user, same_block,
  same_followed_user, same_follow, is_too_long, is_replaced_by, is_block_of, is_follow_of,
}
use k_indexer.Store.Invariant.{IfSome, refused, holds, IfSome-if}
use k_indexer.Save.{Transaction, Libs}
use k_indexer.Save.Signed.{
  IsSignedBroadcast, IsSignedVote, IsSignedBlock, IsSignedFollow, IsSignedContent,
}
use k_indexer.Save.Signed.Rows.{IsSignedMention, IsSignedHashtag}
use k_indexer.Save.Process.{process_k_transaction}
use k_indexer.Save.Executes.{
  Executes, skip, fail, inserts_content, inserts_vote, replaces_broadcast, inserts_block,
  deletes_block, inserts_follow, deletes_follow,
}
use k_indexer.Save.Executes.Actions.{process_k_transaction-Executes}
use k_indexer.Save.Laws.{IfSome-some}

module _ {Key : Type 0} (libs : Libs Key) where
  -- Every row is signed by its sender; mentions and hashtags stand in a message that their sender signed.
  pub record IsAuthentic (db : Db) : Type 0 where
    pub broadcasts : All (IsSignedBroadcast libs) db.k_broadcasts
    pub votes : All (IsSignedVote libs) db.k_votes
    pub blocks : All (IsSignedBlock libs) db.k_blocks
    pub follows : All (IsSignedFollow libs) db.k_follows
    pub contents : All (IsSignedContent libs) db.k_contents
    pub mentions : All (IsSignedMention libs) db.k_mentions
    pub hashtags : All (IsSignedHashtag libs) db.k_hashtags

  Executes-IsAuthentic :
      {f : Db → Option Db}
      → Executes libs f
      → (db : Db) → IsAuthentic db
      → IfSome IsAuthentic (f db)
  unfolding insert_content insert_vote replace_broadcast insert_block delete_block insert_follow
      delete_follow delete_rows
  Executes-IsAuthentic skip db i = holds i
  Executes-IsAuthentic fail db i = refused
  Executes-IsAuthentic (inserts_content r ms ts s) db i =
      IfSome-if (any (same_content_signature r) db.k_contents) (λ _. holds i)
        λ _.
          IfSome-if (any (same_content_id r) db.k_contents) (λ _. refused)
            λ _.
              IfSome-if (any is_too_long ts) (λ _. refused)
                λ _. holds record {
                  broadcasts = i.broadcasts;
                  votes = i.votes;
                  blocks = i.blocks;
                  follows = i.follows;
                  contents = (s.content, i.contents);
                  mentions =
                      All-append (IsSignedMention libs) (mentions_of r ms) db.k_mentions s.mentions
                        i.mentions;
                  hashtags =
                      All-append (IsSignedHashtag libs) (hashtags_of r ts) db.k_hashtags s.hashtags
                        i.hashtags;
                }
  Executes-IsAuthentic (inserts_vote r pubkey s) db i =
      IfSome-if (not (is_one_of (codes "upvote") (codes "downvote") r.vote)) (λ _. refused)
        λ _.
          IfSome-if (any (same_vote_signature r) db.k_votes) (λ _. holds i)
            λ _.
              IfSome-if (any (same_vote_id r) db.k_votes) (λ _. refused)
                λ _. holds record {
                  broadcasts = i.broadcasts;
                  votes = (s.vote, i.votes);
                  blocks = i.blocks;
                  follows = i.follows;
                  contents = i.contents;
                  mentions = (s.mention, i.mentions);
                  hashtags = i.hashtags;
                }
  Executes-IsAuthentic (replaces_broadcast r s) db i =
      let kept =
        All-where_rows (IsSignedBroadcast libs) (λ b. not (is_replaced_by r b)) db.k_broadcasts
          i.broadcasts in
      IfSome-if (any (same_broadcast_id r) db.k_broadcasts)
        (λ _. holds record {
          broadcasts = kept;
          votes = i.votes;
          blocks = i.blocks;
          follows = i.follows;
          contents = i.contents;
          mentions = i.mentions;
          hashtags = i.hashtags;
        })
        λ _. holds record {
          broadcasts = (s, kept);
          votes = i.votes;
          blocks = i.blocks;
          follows = i.follows;
          contents = i.contents;
          mentions = i.mentions;
          hashtags = i.hashtags;
        }
  Executes-IsAuthentic (inserts_block r s) db i =
      IfSome-if (not (text_eq r.blocking_action (codes "block"))) (λ _. refused)
        λ _.
          IfSome-if (any (same_blocked_user r) db.k_blocks) (λ _. holds i)
            λ _.
              IfSome-if (any (same_block r) db.k_blocks) (λ _. refused)
                λ _. holds record {
                  broadcasts = i.broadcasts;
                  votes = i.votes;
                  blocks = (s, i.blocks);
                  follows = i.follows;
                  contents = i.contents;
                  mentions = i.mentions;
                  hashtags = i.hashtags;
                }
  Executes-IsAuthentic (deletes_block sender blocked) db i = holds record {
    broadcasts = i.broadcasts;
    votes = i.votes;
    blocks =
        All-where_rows (IsSignedBlock libs) (λ b. not (is_block_of sender blocked b)) db.k_blocks
          i.blocks;
    follows = i.follows;
    contents = i.contents;
    mentions = i.mentions;
    hashtags = i.hashtags;
  }
  Executes-IsAuthentic (inserts_follow r s) db i =
      IfSome-if (not (text_eq r.following_action (codes "follow"))) (λ _. refused)
        λ _.
          IfSome-if (any (same_followed_user r) db.k_follows) (λ _. holds i)
            λ _.
              IfSome-if (any (same_follow r) db.k_follows) (λ _. refused)
                λ _. holds record {
                  broadcasts = i.broadcasts;
                  votes = i.votes;
                  blocks = i.blocks;
                  follows = (s, i.follows);
                  contents = i.contents;
                  mentions = i.mentions;
                  hashtags = i.hashtags;
                }
  Executes-IsAuthentic (deletes_follow sender followed) db i = holds record {
    broadcasts = i.broadcasts;
    votes = i.votes;
    blocks = i.blocks;
    follows =
        All-where_rows (IsSignedFollow libs) (λ b. not (is_follow_of sender followed b))
          db.k_follows i.follows;
    contents = i.contents;
    mentions = i.mentions;
    hashtags = i.hashtags;
  }

  -- Processing a transaction keeps the tables authentic: the stored signature of every broadcast, vote,
  -- block, follow and content verifies under the stored key of its sender, over the message that is
  -- built from the row's own text and the hex text of the content or user that it refers to. The sender of a
  -- mention signed a message that ends in the mentioned key or in the list with it, and the sender of a
  -- hashtag a message with a text in which the extractor finds it.
  pub process-IsAuthentic :
      (t : Transaction) (db db' : Db)
      → IsAuthentic db
      → process_k_transaction libs t db ≡ some db'
      → IsAuthentic db'
  process-IsAuthentic t db db' i =
      IfSome-some IsAuthentic (process_k_transaction libs t db) db'
        (Executes-IsAuthentic (process_k_transaction-Executes libs t) db i)

  pub empty_db-IsAuthentic : IsAuthentic empty_db
  empty_db-IsAuthentic = record {
    broadcasts = tt;
    votes = tt;
    blocks = tt;
    follows = tt;
    contents = tt;
    mentions = tt;
    hashtags = tt;
  }
