-- ===== src/Routes/Status.antt =====
-- Which statuses the routes of K-webserver/src/web_server.rs give.
pub mod All
use k_indexer.Prelude.{
  ℕ, ◌≡◌, refl, ap, ◌∙◌, Bool, true, false, ◌&&◌, ◌||◌, Option, none, some, List, [], ◌∷◌,
  if◌then◌else◌, ◌==◌, not, arith, Bool-cases, inl, inr, ltb,
}
use k_indexer.Text.{Text, codes, text_eq, is_empty, byte_len}
use k_indexer.Protocol.Messages.{unwrap_or}
use k_indexer.Models.{ApiError}
use k_indexer.Api.{Result, ok, err, ◌>>=◌, Codec, Serde, create_error_response}
use k_indexer.Api.Requests.{Request, handle}
use k_indexer.Api.Guards.Checks.{
  ErrorCode, user_key, post_id, parameter, missing, database, serialization, code_text,
}
use k_indexer.Api.Guards.Errors.{Fails, keys, ids, details, plain, windows, handle-Fails}
use k_indexer.Routes.{
  StatusCode, Response, AppState, bad, internal, required, required_limit, valid_limit,
  valid_window, status_of, is_one_of_texts, respond,
}
use k_indexer.Routes.Lists.{valid_hashtag}

-- The statuses that the codes stand for. A lenient route has none for INVALID_USER_KEY.
unfoldable pub expected : (lenient : Bool) → Text → StatusCode
unfolding is_one_of_texts text_eq
expected lenient code =
    if text_eq code (codes "INVALID_USER_KEY") && lenient
    then StatusCode.internal_server_error
    else if is_one_of_texts code (
        codes "MISSING_PARAMETER"
        ∷ codes "INVALID_LIMIT"
        ∷ codes "INVALID_PARAMETER"
        ∷ codes "INVALID_PARAMETERS"
        ∷ codes "INVALID_USER_KEY"
        ∷ codes "INVALID_POST_ID"
        ∷ [])
    then StatusCode.bad_request
    else if text_eq code (codes "NOT_FOUND")
    then StatusCode.not_found
    else StatusCode.internal_server_error

-- A response is an answer, or an error with the status of its code.
pub data IsReported {ℓ} {A : Type ℓ} (lenient : Bool) : Response A → Type ℓ where
  answered : (a : A) → IsReported lenient (ok a)
  reported :
      (status : StatusCode) (e : ApiError)
      → status ≡ expected lenient e.code
      → IsReported lenient (err (status, e))

-- What the JSON library writes it reads back, and it writes every value.
abbrev pub IsFaithful {ℓ} : {A : Type ℓ} → Codec A → Type ℓ
IsFaithful {A} codec =
    (a : A) → (json : Text) × (codec.to_string a ≡ some json) × (codec.from_str json ≡ some a)

pub bind-IsReported {ℓ κ} :
    {A : Type ℓ} {B : Type κ} {lenient : Bool} {m : Response A} {k : A → Response B}
    → IsReported lenient m
    → ((a : A) → IsReported lenient (k a))
    → IsReported lenient (m >>= k)
unfolding ◌>>=◌
bind-IsReported (answered a) h = h a
bind-IsReported (reported status e s) h = reported status e s

module _ (lenient : Bool) where
  pub bad-IsReported {ℓ} :
      {A : Type ℓ} (message code : Text)
      → StatusCode.bad_request ≡ expected lenient code
      → IsReported {A = A} lenient (bad message code)
  unfolding bad
  bad-IsReported message code h = reported _ (record { error = message; code = code }) h

  internal-IsReported {ℓ} : {A : Type ℓ} → IsReported {A = A} lenient internal
  unfolding internal expected
  internal-IsReported =
      reported _ (record { error = codes "Internal server error"; code = codes "INTERNAL_ERROR" })
        refl

  if-IsReported {ℓ} :
      {A : Type ℓ} (b : Bool) {x y : Response A}
      → IsReported lenient x
      → IsReported lenient y
      → IsReported lenient (if b then x else y)
  if-IsReported true f g = f
  if-IsReported false f g = g

  pub required-IsReported {ℓ} :
      {A : Type ℓ} (name : Text) (o : Option A) → IsReported lenient (required name o)
  unfolding required expected
  required-IsReported name (some a) = answered a
  required-IsReported name none = bad-IsReported _ _ refl

  pub valid_limit-IsReported : (limit : ℕ) → IsReported lenient (valid_limit limit)
  unfolding valid_limit expected
  valid_limit-IsReported limit = if-IsReported _ (bad-IsReported _ _ refl) (answered limit)

  pub required_limit-IsReported : (o : Option ℕ) → IsReported lenient (required_limit o)
  unfolding required_limit expected
  required_limit-IsReported (some limit) = valid_limit-IsReported limit
  required_limit-IsReported none = bad-IsReported _ _ refl

  pub valid_window-IsReported : (w : Text) → IsReported lenient (valid_window w)
  unfolding valid_window expected
  valid_window-IsReported w = if-IsReported _ (answered w) (bad-IsReported _ _ refl)

  pub valid_hashtag-IsReported : (tag : Text) → IsReported lenient (valid_hashtag tag)
  unfolding valid_hashtag expected
  valid_hashtag-IsReported tag =
      if-IsReported (is_empty tag) (bad-IsReported _ (codes "INVALID_PARAMETER") refl) (
        if-IsReported (ltb 30 (byte_len tag)) (bad-IsReported _ (codes "INVALID_PARAMETER") refl)
          (answered tag))

-- A route's list of codes gives an error that its handler may give the status that the code stands for.
abbrev pub Reports :
    (lenient : Bool) (allowed : ErrorCode → Bool) (bad_requests not_founds : List Text) → Type 0
Reports lenient allowed bad_requests not_founds =
    (c : ErrorCode)
    → allowed c ≡ true
    → status_of bad_requests not_founds (code_text c) ≡ expected lenient (code_text c)

-- That a route's lists do so is computed.
abbrev status_code : StatusCode → ℕ
status_code StatusCode.bad_request = 400
status_code StatusCode.not_found = 404
status_code StatusCode.too_many_requests = 429
status_code StatusCode.internal_server_error = 500

status_code_injective : (s t : StatusCode) → (status_code s == status_code t) ≡ true → s ≡ t
status_code_injective StatusCode.bad_request StatusCode.bad_request h = refl
status_code_injective StatusCode.not_found StatusCode.not_found h = refl
status_code_injective StatusCode.too_many_requests StatusCode.too_many_requests h = refl
status_code_injective StatusCode.internal_server_error StatusCode.internal_server_error h = refl
status_code_injective _ _ h = ground arith

for_codes : (ErrorCode → Bool) → Bool
for_codes p = p user_key && p post_id && p parameter && p missing && p database && p serialization

for_codes_sound : (p : ErrorCode → Bool) → for_codes p ≡ true → (c : ErrorCode) → p c ≡ true
unfolding for_codes
for_codes_sound p h user_key = ground arith
for_codes_sound p h post_id = ground arith
for_codes_sound p h parameter = ground arith
for_codes_sound p h missing = ground arith
for_codes_sound p h database = ground arith
for_codes_sound p h serialization = ground arith

reports :
    (lenient : Bool) (allowed : ErrorCode → Bool) (bad_requests not_founds : List Text)
    → ErrorCode
    → Bool
unfolding status_of expected
reports lenient allowed bad_requests not_founds c =
    not (allowed c)
    || status_code (status_of bad_requests not_founds (code_text c))
      == status_code (expected lenient (code_text c))

unfoldable pub all_reported :
    (lenient : Bool) (allowed : ErrorCode → Bool) (bad_requests not_founds : List Text) → Bool
unfolding for_codes reports
all_reported lenient allowed bad_requests not_founds =
    for_codes (reports lenient allowed bad_requests not_founds)

implied : (a b : Bool) → (not a || b) ≡ true → a ≡ true → b ≡ true
implied true b h k = h
implied false b h k = ground arith

Reports-all_reported :
    (lenient : Bool) (allowed : ErrorCode → Bool) (bad_requests not_founds : List Text)
    → all_reported lenient allowed bad_requests not_founds ≡ true
    → Reports lenient allowed bad_requests not_founds
unfolding all_reported
Reports-all_reported lenient allowed bad_requests not_founds h c a = status_code_injective _ _ (
    implied (allowed c) _ (for_codes_sound (reports lenient allowed bad_requests not_founds) h c) a)

module _ (serde : Serde) (faithful : IsFaithful serde.api_error) where
  -- An error of a handler is read back as it was.
  from_str-create_error_response :
      (message code : Text)
      → serde.api_error.from_str (create_error_response serde message code)
        ≡ some (record { error = message; code = code })
  unfolding create_error_response
  from_str-create_error_response message code =
      let (json, writes, reads) = faithful (record { error = message; code = code }) in
      rw (writes, reads)

  pub respond-IsReported {ℓ} :
      {A : Type ℓ} (codec : Codec A) (lenient : Bool) (allowed : ErrorCode → Bool)
      (bad_requests not_founds : List Text)
      → all_reported lenient allowed bad_requests not_founds ≡ true
      → (m : Result Text Text) → Fails serde allowed m
      → IsReported lenient (respond serde codec bad_requests not_founds m)
  unfolding respond
  respond-IsReported {A} codec lenient allowed bad_requests not_founds h _ (Fails.answers json) =
      elim (codec.from_str json)
        as (λ o. IsReported {A = A} lenient (elim o [ some a ↦ ok a | none ↦ internal ])) [
          | some a ↦ answered a
          | none ↦ internal-IsReported lenient {A = A}
        ]
  respond-IsReported codec lenient allowed bad_requests not_founds h _
        (Fails.fails message code a) =
      rw (from_str-create_error_response message (code_text code), respond)
        (reported _ (record { error = message; code = code_text code })
          (Reports-all_reported lenient allowed bad_requests not_founds h code a))
