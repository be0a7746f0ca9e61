-- ===== src/Routes.antt =====
-- The routes of K-webserver/src/web_server.rs: the parameters of a request as axum reads them, the
-- checks of a route, the call of its handler, and the status of the answer. The routes stand in the
-- children.
pub mod Queries
pub mod Lists
pub mod People
pub mod Calls
pub mod Status
pub mod Limits
pub mod Modest
pub mod Tests
use k_indexer.Prelude.{
  ℕ, Bool, true, false, ◌||◌, Option, none, some, List, [], ◌∷◌, ◌++◌, if◌then◌else◌, ltb,
}
use k_indexer.Text.{Text, codes, text_eq}
use k_indexer.Models.{ApiError}
use k_indexer.Api.{Result, ok, err, DatabaseInterface, Codec, Serde}
use k_indexer.RateLimit.{SocketAddr, RateLimitMap, check_rate_limit}

pub data StatusCode : Type 0 where
  bad_request not_found too_many_requests internal_server_error : StatusCode

-- A response, or a status with an error.
abbrev pub Response {ℓ} : Type ℓ → Type ℓ
Response A = Result (StatusCode × ApiError) A

-- What the state of the application holds besides the map of the rate limit: the database, the
-- configured limit, the JSON library, `str::to_lowercase` and the system's clock.
pub record AppState : Type 0 where
  pub db : DatabaseInterface
  pub serde : Serde
  pub rate_limit : ℕ
  pub to_lowercase : Text → Text
  pub now : ℕ

unfoldable pub api_error : (message code : Text) → ApiError
api_error message code = record { error = message; code = code }

unfoldable pub bad {ℓ} : {A : Type ℓ} → (message code : Text) → Response A
unfolding api_error
bad message code = err (StatusCode.bad_request, api_error message code)

unfoldable pub internal {ℓ} : {A : Type ℓ} → Response A
unfolding api_error
internal = err (
  StatusCode.internal_server_error,
  api_error (codes "Internal server error") (codes "INTERNAL_ERROR"),
)

-- A parameter that must be there.
unfoldable pub required {ℓ} : {A : Type ℓ} → (name : Text) → Option A → Response A
unfolding bad
required name (some a) = ok a
required name none = bad (codes "Missing required parameter: " ++ name) (codes "MISSING_PARAMETER")

unfoldable pub valid_limit : ℕ → Response ℕ
unfolding bad
valid_limit limit =
    if ltb limit 1 || ltb 100 limit
    then bad (codes "Limit parameter must be between 1 and 100") (codes "INVALID_LIMIT")
    else ok limit

unfoldable pub required_limit : Option ℕ → Response ℕ
unfolding bad valid_limit
required_limit (some limit) = valid_limit limit
required_limit none = bad (codes "Missing required parameter: limit") (codes "MISSING_PARAMETER")

-- `valid_windows.contains(&time_window.as_str())`.
unfoldable pub is_one_of_texts : Text → List Text → Bool
is_one_of_texts t [] = false
is_one_of_texts t (s ∷ texts) = text_eq t s || is_one_of_texts t texts

unfoldable pub valid_window : Text → Response Text
unfolding bad is_one_of_texts
valid_window w =
    if is_one_of_texts w (codes "1h" ∷ codes "6h" ∷ codes "24h" ∷ codes "7d" ∷ codes "30d" ∷ [])
    then ok w
    else bad (codes "Invalid timeWindow parameter. Must be one of: 1h, 6h, 24h, 7d, 30d")
        (codes "INVALID_PARAMETER")

-- The match on the code of a handler's error: the codes of a bad request, those of what is not found,
-- and all others. An arm that lists codes of internal errors gives what the last one gives.
unfoldable pub status_of : (bad_requests not_founds : List Text) → Text → StatusCode
unfolding is_one_of_texts
status_of bad_requests not_founds code =
    if is_one_of_texts code bad_requests
    then StatusCode.bad_request
    else if is_one_of_texts code not_founds
    then StatusCode.not_found
    else StatusCode.internal_server_error

-- What a route makes of the answer of its handler, which is JSON either way.
unfoldable pub respond {ℓ} :
    {A : Type ℓ}
    → Serde
    → Codec A
    → (bad_requests not_founds : List Text) → Result Text Text
    → Response A
unfolding internal status_of
respond serde codec bad_requests not_founds (ok response_json) =
    elim (codec.from_str response_json) [ some a ↦ ok a | none ↦ internal ]
respond serde codec bad_requests not_founds (err error_json) =
    elim (serde.api_error.from_str error_json) [
      | some e ↦ err (status_of bad_requests not_founds e.code, e)
      | none ↦ internal
    ]

-- A route asks for the rate limit first; the map changes whatever comes then.
unfoldable pub rate_limited {ℓ} :
    {A : Type ℓ}
    → (rate_limit instant : ℕ) → SocketAddr
    → RateLimitMap
    → Response A
    → Response A × RateLimitMap
unfolding check_rate_limit api_error
rate_limited rate_limit instant client_addr m response =
    let r = check_rate_limit rate_limit instant client_addr m in
    (
      if r.0
          then response
          else err (
            StatusCode.too_many_requests,
            api_error (codes "Rate limit exceeded. Too many requests per minute.")
                (codes "RATE_LIMIT_EXCEEDED"),
          ),
      r.1,
    )
