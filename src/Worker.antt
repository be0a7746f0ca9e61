-- ===== src/Worker.antt =====
-- `Worker` of K-transaction-processor/src/worker.rs. The table `transactions` belongs to another
-- program: what `fetch_transaction` returns is an argument, as a function of the attempt, where attempt 0
-- is the first fetch. The delay between attempts is not modelled.
pub mod Laws
pub mod Tests
use k_indexer.Prelude.{ℕ, zero, suc, ◌+◌, Bool, Option, none, some, List, [], ◌∷◌, if◌then◌else◌}
use k_indexer.Text.{Text, codes, starts_with}
use k_indexer.Protocol.Messages.{unwrap_or}
use k_indexer.Store.{Db}
use k_indexer.Save.{Transaction, Libs}
use k_indexer.Save.Process.{process_k_transaction, payload_str}

-- The result of `fetch_and_process_transaction`.
pub data Fetched : Type 0 where
  found : Transaction → Fetched
  not_found : Fetched
  fetch_error : Fetched

module _ {Key : Type 0} (libs : Libs Key) where
  process_text : Transaction → Option Text → Db → Db
  process_text transaction none db = db
  process_text transaction (some s) db =
      if starts_with s (codes "k:1:")
      then unwrap_or db (process_k_transaction libs transaction db)
      else db

  -- The body for a transaction that was found; an error is logged.
  unfoldable pub process_found : Transaction → Db → Db
  unfolding process_text
  process_found transaction db = process_text transaction (payload_str libs transaction) db

  -- The attempts that are left, and the number of the next one.
  unfoldable pub retry_transaction : (ℕ → Fetched) → (attempts attempt : ℕ) → Db → Db
  retry_transaction fetch zero attempt db = db
  retry_transaction fetch (suc attempts) attempt db =
      let again = retry_transaction fetch attempts (suc attempt) db in
      elim (fetch attempt) [
        | found transaction ↦ process_found transaction db
        | not_found ↦ again
        | fetch_error ↦ again
      ]

  -- A transaction that is absent at the first fetch is not retried.
  unfoldable pub process_transaction : (retry_attempts : ℕ) → (ℕ → Fetched) → Db → Db
  unfolding retry_transaction process_found
  process_transaction retry_attempts fetch db = elim (fetch 0) [
    | found transaction ↦ process_found transaction db
    | not_found ↦ db
    | fetch_error ↦ retry_transaction fetch retry_attempts 1 db
  ]

  -- The loop over the ids that are received; each comes with what its fetches return.
  unfoldable pub start : (retry_attempts : ℕ) → List (ℕ → Fetched) → Db → Db
  unfolding process_transaction
  start retry_attempts [] db = db
  start retry_attempts (fetch ∷ fetches) db =
      start retry_attempts fetches (process_transaction retry_attempts fetch db)
