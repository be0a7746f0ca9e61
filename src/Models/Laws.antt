-- ===== src/Models/Laws.antt =====
-- What an answer tells of its record: K-webserver/src/models.rs.
use k_indexer.Prelude.{◌≤◌, ◌≡◌, refl}
use k_indexer.Cursor.{create_compound_cursor, parse_compound_cursor, ok, max_u64}
use k_indexer.Cursor.RoundTrip.{IsI64, parse-create}
use k_indexer.Models.{post, reply, vote, NotificationContentRecord}
use k_indexer.Models.Notifications.{
  from_k_post_record_with_mention_cursor, from_k_reply_record_with_mention_cursor,
  from_k_vote_record_with_mention_cursor, notification_post,
}

cursor-notification_post :
    (n : NotificationContentRecord)
    → (notification_post n).cursor ≡ create_compound_cursor n.mention_block_time n.mention_id
unfolding notification_post from_k_post_record_with_mention_cursor
    from_k_reply_record_with_mention_cursor from_k_vote_record_with_mention_cursor
cursor-notification_post n =
    elim n.content
      as (λ c.
        (notification_post (record n { content = c })).cursor
        ≡ create_compound_cursor n.mention_block_time n.mention_id) [
          | post r ↦ refl
          | reply r ↦ refl
          | vote r ↦ refl
        ]

-- The cursor of a notification is read back as the time and the id of its mention, whatever is mentioned.
pub parse-notification_post :
    (n : NotificationContentRecord)
    → n.mention_block_time ≤ max_u64
    → IsI64 n.mention_id
    → parse_compound_cursor (notification_post n).cursor ≡ ok n.mention_block_time n.mention_id
parse-notification_post n ht hi =
    rw (cursor-notification_post n) (parse-create n.mention_block_time n.mention_id ht hi)
