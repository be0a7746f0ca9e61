-- ===== src/Api/Guards/Checks.antt =====
-- The checks of K-webserver/src/api_handlers.rs one by one: what each accepts, and what it refuses
-- with.
use k_indexer.Prelude.{ℕ, Bool, true, false, not, ◌&&◌, ◌||◌, Option, none, some, ◌==◌}
use k_indexer.Text.{Text, codes, byte_len, all, is_ascii_hexdigit, starts_with}
use k_indexer.Api.{
  Result, ok, err, ◌>>◌, Serde, create_error_response, refuse_if, require_public_key, require_id,
}
use k_indexer.Api.Users.{require_window, window_millis, require_searched}
use k_indexer.Api.Requests.{is_public_key, is_id, is_searched}

-- The codes of the errors that handlers give.
pub data ErrorCode : Type 0 where
  user_key post_id parameter missing database serialization : ErrorCode

abbrev pub code_text : ErrorCode → Text
code_text user_key = codes "INVALID_USER_KEY"
code_text post_id = codes "INVALID_POST_ID"
code_text parameter = codes "INVALID_PARAMETER"
code_text missing = codes "NOT_FOUND"
code_text database = codes "DATABASE_ERROR"
code_text serialization = codes "SERIALIZATION_ERROR"

-- A check accepts, or it refuses with its code.
pub data Verdict (serde : Serde) (code : ErrorCode) : Bool → Result Text (Unit {0}) → Type 0 where
  accepts : Verdict serde code true (ok tt)
  refuses :
      (message : Text)
      → Verdict serde code false (err (create_error_response serde message (code_text code)))

-- The check of a window gives its length.
pub data WindowVerdict (serde : Serde) : Option ℕ → Result Text ℕ → Type 0 where
  accepts : (millis : ℕ) → WindowVerdict serde (some millis) (ok millis)
  refuses :
      (message : Text)
      → WindowVerdict serde none (err (create_error_response serde message (code_text parameter)))

module _ (serde : Serde) where
  -- A check accepts where what it asks for holds.
  check-Verdict :
      (code : ErrorCode) (b : Bool) (message : Text)
      → Verdict serde code b (refuse_if serde (not b) message (code_text code))
  check-Verdict code true message = Verdict.accepts
  check-Verdict code false message = Verdict.refuses message

  either-Verdict :
      (code : ErrorCode) (b c : Bool) (message : Text)
      → Verdict serde code (b || c) (refuse_if serde (not b && not c) message (code_text code))
  either-Verdict code true c message = check-Verdict code true message
  either-Verdict code false c message = check-Verdict code c message

  -- Checks in a row.
  and-Verdict :
      {code : ErrorCode} {b c : Bool} {m k : Result Text (Unit {0})}
      → Verdict serde code b m
      → Verdict serde code c k
      → Verdict serde code (b && c) (m >> k)
  unfolding ◌>>◌
  and-Verdict Verdict.accepts v = v
  and-Verdict (Verdict.refuses message) v = Verdict.refuses message

  pub require_public_key-Verdict :
      (name key : Text)
      → Verdict serde user_key (is_public_key key) (require_public_key serde name key)
  unfolding is_public_key require_public_key
  require_public_key-Verdict name key =
      and-Verdict (check-Verdict user_key (byte_len key == 66) _) (
        and-Verdict (check-Verdict user_key (all is_ascii_hexdigit key) _)
          (either-Verdict user_key (starts_with key (codes "02")) (starts_with key (codes "03")) _))

  pub require_id-Verdict :
      (name id : Text) → Verdict serde post_id (is_id id) (require_id serde name id)
  unfolding is_id require_id
  require_id-Verdict name id =
      and-Verdict (check-Verdict post_id (byte_len id == 64) _)
        (check-Verdict post_id (all is_ascii_hexdigit id) _)

  pub require_searched-Verdict :
      (key : Option Text) → Verdict serde user_key (is_searched key) (require_searched serde key)
  unfolding is_searched require_searched
  require_searched-Verdict none = Verdict.accepts
  require_searched-Verdict (some key) =
      and-Verdict (check-Verdict user_key (byte_len key == 66) _)
        (either-Verdict user_key (starts_with key (codes "02")) (starts_with key (codes "03")) _)

  pub require_window-WindowVerdict :
      (w : Text) → WindowVerdict serde (window_millis w) (require_window serde w)
  unfolding require_window
  require_window-WindowVerdict w =
      elim (window_millis w)
        as (λ o. WindowVerdict serde o (elim o [
          | some millis ↦ ok millis
          | none ↦ err (
              create_error_response serde (codes "Invalid time window parameter")
                (codes "INVALID_PARAMETER"))
        ])) [ none ↦ WindowVerdict.refuses _ | some millis ↦ WindowVerdict.accepts millis ]
