-- ===== src/Api/Tests.antt =====
-- A database with one broadcast, of a user that the requester blocks, and JSON that is read back for errors
-- alone.
use k_indexer.Prelude.{pos, ◌≡◌, refl, true, false, Option, none, some, [], ◌∷◌, ◌++◌, ◌&&◌}
use k_indexer.Text.{Text, codes, byte_len, is_ascii_hexdigit, starts_with}
use k_indexer.Page.{PaginatedResult}
use k_indexer.Models.{KBroadcastRecord, ApiError}
use k_indexer.Api.{ok, err, DatabaseError, DatabaseResult, DatabaseInterface, Codec, Serde}
use k_indexer.Api.Requests.{Request, handle, passes_checks, is_answered, is_public_key, is_ok}
use k_indexer.Api.Guards.{IsRefused, handle-IsRefused}
use k_indexer.Api.Guards.Answers.{IsTotal, is_ok-handle}
use k_indexer.Api.Guards.Errors.{Fails, errors_of, handle-Fails}
use k_indexer.Api.Masking.{censor, is_flagged}
use k_indexer.Api.Hidden.{handle-censor}

abbrev pub no_answer {ℓ} : {A : Type ℓ} → DatabaseResult A
no_answer = err DatabaseError.not_found

abbrev pub one_page {ℓ} : {A : Type ℓ} → A → DatabaseResult (PaginatedResult A)
one_page a = ok (record {
  items = a ∷ [];
  pagination = record { has_more = false; next_cursor = none; prev_cursor = none };
})

abbrev pub spam : KBroadcastRecord
spam = record {
  id = pos 7;
  transaction_id = codes "ab";
  block_time = 1700;
  sender_pubkey = codes "02ff";
  sender_signature = codes "cd";
  base64_encoded_nickname = codes "c3BhbQ==";
  base64_encoded_profile_image = none;
  base64_encoded_message = codes "YnV5IG5vdw==";
}

abbrev pub database : DatabaseInterface
database = record {
  get_all_users = λ q o. one_page (spam, true, false);
  get_most_active_users = λ q o from_time to_time. one_page (spam, true, false, pos 3);
  search_users = λ q o k n. one_page (spam, true, false);
  get_user_details = λ u q. ok (some (spam, true, false, pos 0, pos 0, pos 0));
  get_blocked_users_by_requester = λ q o. one_page spam;
  get_followed_users_by_requester = λ q o. no_answer;
  get_users_following = λ q u o. no_answer;
  get_users_followers = λ q u o. no_answer;
  get_all_posts = λ q o. no_answer;
  get_content_following = λ q o. no_answer;
  get_contents_mentioning_user = λ u q o. no_answer;
  get_replies_by_post_id = λ p q o. no_answer;
  get_replies_by_user = λ u q o. no_answer;
  get_posts_by_user = λ u q o. no_answer;
  get_notifications = λ q o. no_answer;
  get_content_by_id = λ c q. ok none;
  get_notification_count = λ q a. ok 4;
  get_users_count = ok 1;
  get_network = ok (codes "mainnet");
  get_stats = no_answer;
  get_hashtag_content = λ t q o. no_answer;
  get_trending_hashtags = λ from_time to_time n. ok ((codes "kaspa", 5) ∷ []);
}

-- The same but for the count of users, which it does not tell.
abbrev other_database : DatabaseInterface
other_database = record database { get_users_count = no_answer }

-- JSON that says nothing.
abbrev pub mute {ℓ} : {A : Type ℓ} → Codec A
mute = record { to_string = λ a. some (codes "{}"); from_str = λ t. none }

-- An error is written as its two texts, with a separator that stands in neither.
abbrev pub escape : Text → Text
escape [] = []
escape (c ∷ t) = Prim.Native.Nat.suc c ∷ escape t

unfoldable pub read : (seen : Text) → Text → Option ApiError
read seen [] = none
read seen (Prim.Native.Nat.zero ∷ t) = some (record { error = seen; code = t })
read seen (Prim.Native.Nat.suc c ∷ t) = read (seen ++ (c ∷ [])) t

abbrev pub errors : Codec ApiError
errors = record { to_string = λ e. some (escape e.error ++ 0 ∷ e.code); from_str = read [] }

abbrev pub serde : Serde
serde = record {
  posts = mute;
  replies = mute;
  users = mute;
  notifications = mute;
  post_details = mute;
  user_post = mute;
  count = mute;
  trending = mute;
  api_error = errors;
}

serde-IsTotal : IsTotal serde
serde-IsTotal = record {
  posts = λ a. refl;
  replies = λ a. refl;
  users = λ a. refl;
  notifications = λ a. refl;
  post_details = λ a. refl;
  user_post = λ a. refl;
  count = λ a. refl;
  trending = λ a. refl;
}

abbrev pub key : Text
key = codes "02aaaaaaaaaaaaaaaaaaaaaaaaaaaaaaaaaaaaaaaaaaaaaaaaaaaaaaaaaaaaaaaa"

key_is_public : is_public_key key ≡ true
unfolding is_public_key byte_len is_ascii_hexdigit starts_with
key_is_public = refl

-- A key of four characters.
handle-IsRefused_example :
    IsRefused serde
      (handle database serde 0 (Request.posts (codes "02ff") key 10 none none))
      (handle other_database serde 0 (Request.posts (codes "02ff") key 10 none none))
unfolding passes_checks is_public_key byte_len
handle-IsRefused_example =
    handle-IsRefused database other_database serde 0 (Request.posts (codes "02ff") key 10 none none)
      refl

is_ok-handle_example : is_ok (handle database serde 0 (Request.notification_count key none)) ≡ (
    passes_checks (Request.notification_count key none)
    && is_answered database 0 (Request.notification_count key none))
is_ok-handle_example =
    is_ok-handle database serde 0 serde-IsTotal (Request.notification_count key none)

handle-censor_example :
    handle (censor (λ t. []) database) serde 0 (Request.users 10 key none none)
    ≡ handle database serde 0 (Request.users 10 key none none)
unfolding is_flagged
handle-censor_example =
    handle-censor (λ t. []) database serde 0 (Request.users 10 key none none) refl

handle-Fails_example :
    Fails serde
      (errors_of (Request.post_details key key))
      (handle database serde 0 (Request.post_details key key))
handle-Fails_example = handle-Fails database serde 0 (Request.post_details key key)
