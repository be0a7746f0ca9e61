-- ===== src/Protocol/Tests.antt =====
-- Runs of the parser, and the theorems on it at concrete payloads.
use k_indexer.Prelude.{◌≡◌, refl, Option, none, some, List, [], ◌∷◌, ◌++◌, arith, if◌then◌else◌}
use k_indexer.Text.{Text, codes, text_eq, text_eq_refl, starts_with}
use k_indexer.Text.Split.{split}
use k_indexer.Protocol.{KVote, vote, quote, Json}
use k_indexer.Protocol.Parse.{
  ok, err, invalid_prefix, invalid_vote_value, is_one_of, parse_k_protocol_payload, parse_action,
}
use k_indexer.Protocol.RoundTrip.{encode, parse-encode}
use k_indexer.Protocol.Sound.{IsParsed, parse-IsParsed}
use k_indexer.Protocol.Binding.{
  content, message, signature_binds_content, as_quote, vote_replays_as_quote,
}

-- A JSON library that knows the empty list alone.
unfoldable pub print_empty : List Text → Option Text
print_empty [] = some (codes "[]")
print_empty (_ ∷ _) = none

unfoldable pub read_empty : Text → Option (List Text)
read_empty s = if text_eq s (codes "[]") then some [] else none

pub read-print : (l : List Text) (s : Text) → print_empty l ≡ some s → read_empty s ≡ some l
unfolding print_empty read_empty
read-print [] s h = let e : codes "[]" ≡ s = cc in rw (← e) (rw (text_eq_refl (codes "[]")))
read-print (x ∷ l) s h = cc

abbrev pub empty_json : Json
empty_json = record {
  to_string = print_empty;
  from_str = read_empty;
  from_str-to_string = read-print;
}

abbrev upvote : KVote
upvote = record {
  sender_pubkey = codes "02ab";
  sender_signature = codes "cd";
  post_id = codes "ef01";
  vote = codes "upvote";
  mentioned_pubkey = codes "03aa";
}

abbrev upvote_payload : Text
upvote_payload = codes "k:1:vote:02ab:cd:ef01:upvote:03aa"

parse_upvote : parse_k_protocol_payload empty_json upvote_payload ≡ ok (vote upvote)
unfolding parse_k_protocol_payload parse_action split starts_with text_eq
parse_upvote = refl

-- Parts behind the sixth are not read.
parse_upvote_longer :
    parse_k_protocol_payload empty_json (upvote_payload ++ codes ":extra") ≡ ok (vote upvote)
unfolding parse_k_protocol_payload parse_action split starts_with text_eq
parse_upvote_longer = refl

parse_bad_vote :
    parse_k_protocol_payload empty_json (codes "k:1:vote:a:b:c:up:d")
    ≡ err (invalid_vote_value (codes "up"))
unfolding parse_k_protocol_payload parse_action split starts_with text_eq
parse_bad_vote = refl

parse_no_prefix : parse_k_protocol_payload empty_json (codes "k:2:vote") ≡ err invalid_prefix
unfolding parse_k_protocol_payload parse_action split starts_with text_eq
parse_no_prefix = refl

parse-encode_example :
    parse_k_protocol_payload empty_json (encode empty_json (vote upvote)) ≡ ok (vote upvote)
unfolding text_eq is_one_of
parse-encode_example = parse-encode empty_json (vote upvote) (omega arith) refl

parse-IsParsed_example : IsParsed (vote upvote)
parse-IsParsed_example = parse-IsParsed empty_json upvote_payload (vote upvote) parse_upvote

signature_binds_content_example : content (vote upvote) ≡ content (vote upvote)
signature_binds_content_example =
    signature_binds_content empty_json upvote_payload (upvote_payload ++ codes ":extra")
      (vote upvote) (vote upvote) parse_upvote parse_upvote_longer tt tt refl refl

vote_replays_as_quote_example :
    (parse_k_protocol_payload empty_json (encode empty_json (quote (as_quote upvote)))
      ≡ ok (quote (as_quote upvote)))
    × (message empty_json (quote (as_quote upvote)) ≡ message empty_json (vote upvote))
vote_replays_as_quote_example = vote_replays_as_quote empty_json upvote_payload upvote parse_upvote
