-- ===== src/Models/Tests.antt =====
-- A vote that mentions a user.
use k_indexer.Prelude.{◌≡◌, pos, none, some, arith}
use k_indexer.Text.{codes}
use k_indexer.Cursor.{parse_compound_cursor, ok}
use k_indexer.Models.{KVoteRecord, vote, NotificationContentRecord}
use k_indexer.Models.Notifications.{notification_post}
use k_indexer.Models.Laws.{parse-notification_post}

abbrev upvote : KVoteRecord
upvote = record {
  id = pos 3;
  transaction_id = codes "ab";
  block_time = 1700000000000;
  sender_pubkey = codes "02ff";
  sender_signature = codes "";
  post_id = codes "cd";
  vote = codes "upvote";
  mention_block_time = some 1700000000000;
  voted_content = none;
  user_nickname = none;
  user_profile_image = none;
}

abbrev mention : NotificationContentRecord
mention = record { content = vote upvote; mention_id = pos 41; mention_block_time = 1700000000000 }

parse-notification_post_example :
    parse_compound_cursor (notification_post mention).cursor ≡ ok 1700000000000 (pos 41)
parse-notification_post_example = parse-notification_post mention (omega arith) (omega arith)
