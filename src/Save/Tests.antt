-- ===== src/Save/Tests.antt =====
-- Runs of the processor with small libraries, and the theorems on it at concrete transactions.
use k_indexer.Prelude.{pos, ◌≡◌, refl, false, none, some, [], ◌∷◌, ◌++◌, replicate}
use k_indexer.Text.{Text, codes, text_eq, starts_with, is_control}
use k_indexer.Text.Split.{split, join}
use k_indexer.Text.Utf8.{from_utf8}
use k_indexer.Protocol.Tests.{empty_json}
use k_indexer.Store.{Bytes, BroadcastRow, VoteRow, ContentRow, ContentType, Db, empty_db}
use k_indexer.Store.Rows.{where_rows}
use k_indexer.Store.Statements.{mention_of_vote, insert_vote, replace_broadcast}
use k_indexer.Store.Invariant.{IsConsistent}
use k_indexer.Protocol.Parse.{parse_k_protocol_payload, parse_action}
use k_indexer.Save.{
  Transaction, Libs, verify_kaspa_signature, check_signature, schnorr_bytes, x_only_bytes,
}
use k_indexer.Save.Process.{
  process_k_transaction, process_payload, payload_str, clean_payload, process_parsed,
  process_action, save_k_vote_to_database, if_signed, store_k_vote,
}
use k_indexer.Save.Idempotent.{process_idempotent}
use k_indexer.Save.Laws.{process-IsConsistent, empty_db-IsConsistent}
use k_indexer.Save.Authentic.{IsAuthentic, process-IsAuthentic, empty_db-IsAuthentic}
use k_indexer.Save.Keys.{verify-prefix}
use k_indexer.Save.Broadcasts.{broadcasts_of, broadcast-newest}

-- Texts stand for themselves in hex and base64, no text has a hashtag, and a signature begins with its
-- key.
abbrev pub toy_libs : Libs Bytes
toy_libs = record {
  json = empty_json;
  hex = record { decode = λ s. some s; encode = λ b. b; decode-encode = λ b. refl };
  kaspa = record { from_slice = λ b. some b; verify_message = λ m s k. starts_with s k };
  text = record {
    base64_decode = λ s. some s;
    is_letter = λ c. false;
    is_number = λ c. false;
    to_lowercase = λ s. s;
  };
}

abbrev pub alice_key : Bytes
alice_key = codes "2" ++ replicate 31 b'a'

abbrev pub alice : Text
alice = codes "0" ++ alice_key

abbrev pub alice_signature : Text
alice_signature = alice_key ++ replicate 32 b's'

-- A vote of alice's.
abbrev pub vote_transaction : Transaction
vote_transaction = record {
  transaction_id = codes "t1";
  payload =
      some (codes "k:1:vote:" ++ alice ++ codes ":" ++ alice_signature ++ codes ":ef:upvote:bob");
  block_time = some (pos 7);
}

abbrev pub alice_vote : VoteRow
alice_vote = record {
  transaction_id = codes "t1";
  block_time = pos 7;
  sender_pubkey = alice;
  sender_signature = alice_signature;
  post_id = codes "ef";
  vote = codes "upvote";
}

abbrev pub voted_db : Db
voted_db = record empty_db {
  k_votes = alice_vote ∷ [];
  k_mentions = mention_of_vote alice_vote (codes "bob") ∷ [];
}

vote_stored : process_k_transaction toy_libs vote_transaction empty_db ≡ some voted_db
unfolding process_k_transaction process_payload payload_str clean_payload process_parsed
    process_action save_k_vote_to_database if_signed store_k_vote insert_vote verify_kaspa_signature
    check_signature schnorr_bytes x_only_bytes parse_k_protocol_payload parse_action split join
    starts_with text_eq from_utf8 where_rows is_control
vote_stored = refl

process_idempotent_example :
    process_k_transaction toy_libs vote_transaction voted_db ≡ some voted_db
process_idempotent_example =
    process_idempotent toy_libs vote_transaction empty_db voted_db vote_stored

process-IsConsistent_example : IsConsistent voted_db
process-IsConsistent_example =
    process-IsConsistent toy_libs vote_transaction empty_db voted_db empty_db-IsConsistent
      vote_stored

process-IsAuthentic_example : IsAuthentic toy_libs voted_db
process-IsAuthentic_example =
    process-IsAuthentic toy_libs vote_transaction empty_db voted_db (empty_db-IsAuthentic toy_libs)
      vote_stored

verify-prefix_example :
    (verify_kaspa_signature toy_libs (codes "m") alice_signature alice
      ≡ verify_kaspa_signature toy_libs (codes "m") alice_signature (codes "3" ++ alice_key))
    × (verify_kaspa_signature toy_libs (codes "m") alice_signature alice
        ≡ verify_kaspa_signature toy_libs (codes "m") alice_signature alice_key)
verify-prefix_example =
    verify-prefix toy_libs (codes "m") alice_signature alice (codes "3" ++ alice_key) alice_key b'0'
      b'3' alice_key refl refl refl refl

abbrev alice_profile : BroadcastRow
alice_profile = record {
  transaction_id = codes "t2";
  block_time = pos 8;
  sender_pubkey = alice;
  sender_signature = alice_signature;
  base64_encoded_nickname = codes "QWw=";
  base64_encoded_profile_image = none;
  base64_encoded_message = codes "aGk=";
}

-- An older profile of hers.
abbrev old_profile_db : Db
old_profile_db = record empty_db {
  k_broadcasts = record alice_profile { transaction_id = codes "t0"; block_time = pos 9 } ∷ [];
}

broadcast-newest_example :
    (db' : Db) × (replace_broadcast alice_profile old_profile_db ≡ some db')
    × (broadcasts_of alice db' ≡ alice_profile ∷ [])
    × ((p : Bytes) → text_eq alice p ≡ false → broadcasts_of p db' ≡ broadcasts_of p old_profile_db)
unfolding text_eq
broadcast-newest_example = broadcast-newest alice_profile old_profile_db refl

abbrev alice_post : ContentRow
alice_post = record {
  transaction_id = codes "t3";
  block_time = pos 9;
  sender_pubkey = alice;
  sender_signature = alice_signature;
  base64_encoded_message = codes "aGk=";
  content_type = ContentType.post;
  referenced_content_id = none;
}
