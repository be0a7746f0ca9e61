-- ===== src/Cleaner/Tests.antt =====
-- The cleaner's theorems at a concrete database, and a chain of replies.
use k_indexer.Prelude.{pos, ◌≡◌, refl, true, none, some, [], ◌∷◌}
use k_indexer.Text.{codes, text_eq}
use k_indexer.Store.{ContentType, ContentRow, Db, empty_db}
use k_indexer.Store.Rows.{where_rows, delete_rows}
use k_indexer.Save.Tests.{alice, voted_db}
use k_indexer.Cleaner.{
  cycle, purge_orphaned_replies, purge_contents, delete_contents, is_orphaned_reply, is_reply,
  is_stored, mentions_content, tags_content,
}
use k_indexer.Cleaner.Survival.{is_kept, cycle-keeps}
use k_indexer.Cleaner.Laws.{IsPurged, cycle-IsPurged}

cycle-IsPurged_example : IsPurged alice (pos 9) (cycle alice (pos 9) (λ _. true) voted_db)
cycle-IsPurged_example = cycle-IsPurged alice (pos 9) voted_db

-- A reply to content that is gone.
abbrev first_reply : ContentRow
first_reply = record {
  transaction_id = codes "r1";
  block_time = pos 1;
  sender_pubkey = alice;
  sender_signature = codes "s1";
  base64_encoded_message = [];
  content_type = ContentType.reply;
  referenced_content_id = some (codes "gone");
}

-- A reply to it.
abbrev second_reply : ContentRow
second_reply = record first_reply {
  transaction_id = codes "r2";
  sender_signature = codes "s2";
  referenced_content_id = some (codes "r1");
}

-- One operation removes the first alone, and so makes the second an orphan.
orphans_of_orphans :
    purge_orphaned_replies (record empty_db { k_contents = second_reply ∷ first_reply ∷ [] })
    ≡ record empty_db { k_contents = second_reply ∷ [] }
unfolding purge_orphaned_replies purge_contents delete_contents is_orphaned_reply is_reply is_stored
    mentions_content tags_content where_rows delete_rows text_eq
orphans_of_orphans = refl

abbrev old_post : ContentRow
old_post = record first_reply {
  transaction_id = codes "p1";
  sender_signature = codes "s3";
  content_type = ContentType.post;
  referenced_content_id = none;
}

abbrev old_db : Db
old_db = record empty_db {
  k_contents = old_post ∷ second_reply ∷ [];
  k_hashtags =
      record {
        sender_pubkey = alice;
        content_id = codes "r2";
        block_time = pos 1;
        hashtag = codes "a";
      }
      ∷ [];
}

cycle-keeps_example :
    where_rows (is_kept alice old_db) (cycle alice (pos 9) (λ _. true) old_db).k_contents
    ≡ where_rows (is_kept alice old_db) old_db.k_contents
unfolding text_eq
cycle-keeps_example = cycle-keeps alice (pos 9) (λ _. true) old_db (refl, (refl, tt))
