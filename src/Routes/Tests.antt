-- ===== src/Routes/Tests.antt =====
-- Calls of a server whose database is that of the handlers' tests.
use k_indexer.Prelude.{ℕ, ◌≡◌, refl, ap, ◌∙◌, true, none, some, [], ◌∷◌, ◌++◌, get_elem?, arith}
use k_indexer.Text.{Text, codes, text_eq}
use k_indexer.Api.Tests.{key, database, serde, errors, escape, read}
use k_indexer.RateLimit.{SocketAddr, same_addr, get}
use k_indexer.RateLimit.Laws.{times}
use k_indexer.Routes.{AppState}
use k_indexer.Routes.Calls.{Call, answer}
use k_indexer.Routes.Status.{IsFaithful}
use k_indexer.Routes.Modest.{modest}
use k_indexer.Routes.Modest.All.{answer-modest}
use k_indexer.Routes.Limits.{Requests, throttled, arrivals, throttled-window}

-- What is written of an error is read back.
snoc : (seen t u : Text) (c : ℕ) → (seen ++ (c ∷ [])) ++ t ≡ seen ++ (c ∷ t)
snoc [] t u c = refl
snoc (x ∷ seen) t u c = ap (λ s. x ∷ s) (snoc seen t u c)

append_nil : (seen : Text) → seen ++ [] ≡ seen
append_nil [] = refl
append_nil (x ∷ seen) = ap (λ s. x ∷ s) (append_nil seen)

read-escape :
    (seen error code : Text)
    → read seen (escape error ++ 0 ∷ code) ≡ some (record { error = seen ++ error; code = code })
unfolding read
read-escape seen [] code = rw (append_nil seen)
read-escape seen (c ∷ error) code =
    read-escape (seen ++ (c ∷ [])) error code ∙ rw (snoc seen error code c)

errors-IsFaithful : IsFaithful errors
errors-IsFaithful e = (escape e.error ++ 0 ∷ e.code, refl, read-escape [] e.error e.code)

abbrev app : AppState
app = record {
  db = database;
  serde = serde;
  rate_limit = 1;
  to_lowercase = λ t. t;
  now = 1700000000000;
}

-- A malformed key of the requester.
abbrev bad_key : Call
bad_key = Call.get_hashtag_content (record {
  hashtag = some (codes "kaspa");
  requester_pubkey = some (codes "02ff");
  limit = none;
  before = none;
  after = none;
})

abbrev client : SocketAddr
client = record { ip = codes "10.0.0.1"; port = 5001 }

abbrev two_requests : Requests
two_requests = (client, 100, database, Call.get_users_count) ∷ (client, 200, database, bad_key) ∷ []

throttled-window_example : get_elem? (throttled app client two_requests []) 1 ≡ some true
unfolding arrivals times get same_addr text_eq
throttled-window_example =
    throttled-window app client two_requests [] 100 (200 ∷ []) 1 errors-IsFaithful refl refl
      (omega arith, tt) (omega arith) (omega arith)

-- The greatest limit, for which the handler asks for a row more.
abbrev many_notifications : Call
many_notifications =
    Call.get_notifications
      (record { requester_pubkey = some key; limit = some 100; before = none; after = none })

answer-modest_example :
    answer (record app { db = modest app.db }) many_notifications ≡ answer app many_notifications
answer-modest_example = answer-modest app many_notifications
