-- ===== src/Worker/Laws.antt =====
-- Which transaction a worker processes, and what its work keeps.
use k_indexer.Prelude.{
  ℕ, zero, suc, ◌+◌, ◌<◌, ◌≡◌, ◌≢◌, ◌⊎◌, inl, inr, refl, sym, ap, ◌∙◌, true, false, Option, none,
  some, List, [], ◌∷◌, arith, if◌then◌else◌,
}
use k_indexer.Text.{Text, codes, starts_with}
use k_indexer.Protocol.Messages.{unwrap_or}
use k_indexer.Store.{Db, empty_db}
use k_indexer.Store.Invariant.{IsConsistent}
use k_indexer.Save.{Transaction, Libs}
use k_indexer.Save.Process.{process_k_transaction, payload_str}
use k_indexer.Save.Laws.{process-IsConsistent, empty_db-IsConsistent}
use k_indexer.Save.Authentic.{IsAuthentic, process-IsAuthentic, empty_db-IsAuthentic}
use k_indexer.Worker.{
  Fetched, found, not_found, fetch_error, process_text, process_found, retry_transaction,
  process_transaction, start,
}

Fetched-cases :
    (f : Fetched) → ((t : Transaction) × (f ≡ found t)) ⊎ ((f ≡ not_found) ⊎ (f ≡ fetch_error))
Fetched-cases (found t) = inl (t, refl)
Fetched-cases not_found = inr (inl refl)
Fetched-cases fetch_error = inr (inr refl)

module _ {Key : Type 0} (libs : Libs Key) where
  -- A predicate that every transaction keeps.
  abbrev Keeps : (Db → Type 0) → Type 0
  Keeps P =
      (t : Transaction) (db db' : Db) → P db → process_k_transaction libs t db ≡ some db' → P db'

  unwrap_or-keeps :
      (P : Db → Type 0) (o : Option Db) (db : Db)
      → P db
      → ((db' : Db) → o ≡ some db' → P db')
      → P (unwrap_or db o)
  unwrap_or-keeps P none db p h = p
  unwrap_or-keeps P (some db') db p h = h db' refl

  process_text-keeps :
      (P : Db → Type 0)
      → Keeps P
      → (t : Transaction) (s : Option Text) (db : Db) → P db
      → P (process_text libs t s db)
  unfolding process_text
  process_text-keeps P keeps t none db p = p
  process_text-keeps P keeps t (some s) db p =
      elim (starts_with s (codes "k:1:"))
        as (λ b. P (if b then unwrap_or db (process_k_transaction libs t db) else db)) [
          | true ↦
              unwrap_or-keeps P (process_k_transaction libs t db) db p (λ db' h. keeps t db db' p h)
          | false ↦ p
        ]

  process_found-keeps :
      (P : Db → Type 0) → Keeps P → (t : Transaction) (db : Db) → P db → P (process_found libs t db)
  unfolding process_found
  process_found-keeps P keeps t db = process_text-keeps P keeps t (payload_str libs t) db

  retry_transaction-keeps :
      (P : Db → Type 0)
      → Keeps P
      → (fetch : ℕ → Fetched) (attempts attempt : ℕ) (db : Db) → P db
      → P (retry_transaction libs fetch attempts attempt db)
  unfolding retry_transaction
  retry_transaction-keeps P keeps fetch zero attempt db p = p
  retry_transaction-keeps P keeps fetch (suc attempts) attempt db p =
      elim (fetch attempt)
        as (λ f. P (elim f [
          | found transaction ↦ process_found libs transaction db
          | not_found ↦ retry_transaction libs fetch attempts (suc attempt) db
          | fetch_error ↦ retry_transaction libs fetch attempts (suc attempt) db
        ])) [
          | found t ↦ process_found-keeps P keeps t db p
          | not_found ↦ retry_transaction-keeps P keeps fetch attempts (suc attempt) db p
          | fetch_error ↦ retry_transaction-keeps P keeps fetch attempts (suc attempt) db p
        ]

  process_transaction-keeps :
      (P : Db → Type 0)
      → Keeps P
      → (n : ℕ) (fetch : ℕ → Fetched) (db : Db) → P db
      → P (process_transaction libs n fetch db)
  unfolding process_transaction
  process_transaction-keeps P keeps n fetch db p =
      elim (fetch 0)
        as (λ f. P (elim f [
          | found transaction ↦ process_found libs transaction db
          | not_found ↦ db
          | fetch_error ↦ retry_transaction libs fetch n 1 db
        ])) [
          | found t ↦ process_found-keeps P keeps t db p
          | not_found ↦ p
          | fetch_error ↦ retry_transaction-keeps P keeps fetch n 1 db p
        ]

  start-keeps :
      (P : Db → Type 0)
      → Keeps P
      → (n : ℕ) (fetches : List (ℕ → Fetched)) (db : Db) → P db
      → P (start libs n fetches db)
  unfolding start
  start-keeps P keeps n [] db p = p
  start-keeps P keeps n (fetch ∷ fetches) db p =
      start-keeps P keeps n fetches (process_transaction libs n fetch db)
        (process_transaction-keeps P keeps n fetch db p)

  -- Whatever ids arrive and whatever their fetches return, the tables that one worker builds from the empty
  -- schema are consistent and authentic: each broadcast, vote, block, follow and content in them verifies
  -- under its sender's key over a message with the row's data; a mention stands beside a content or vote of
  -- its sender, who signed a message that ends in the mentioned key or in the list with it; and a hashtag
  -- beside a content of its sender, who signed a message with a text in which the extractor finds it.
  pub start-keeps_invariants :
      (n : ℕ) (fetches : List (ℕ → Fetched))
      → IsConsistent (start libs n fetches empty_db)
        × IsAuthentic libs (start libs n fetches empty_db)
  start-keeps_invariants n fetches = (
    start-keeps IsConsistent (process-IsConsistent libs) n fetches empty_db empty_db-IsConsistent,
    start-keeps (IsAuthentic libs) (process-IsAuthentic libs) n fetches empty_db
        (empty_db-IsAuthentic libs),
  )

  retry_transaction-found :
      (fetch : ℕ → Fetched) (attempts attempt : ℕ) (t : Transaction) (db : Db)
      → fetch attempt ≡ found t
      → retry_transaction libs fetch (suc attempts) attempt db ≡ process_found libs t db
  unfolding retry_transaction
  retry_transaction-found fetch attempts attempt t db h = rw (retry_transaction, h)

  retry_transaction-next :
      (fetch : ℕ → Fetched) (attempts attempt : ℕ) (db : Db)
      → ((u : Transaction) → fetch attempt ≢ found u)
      → retry_transaction libs fetch (suc attempts) attempt db
        ≡ retry_transaction libs fetch attempts (suc attempt) db
  unfolding retry_transaction
  retry_transaction-next fetch attempts attempt db h = elim (Fetched-cases (fetch attempt)) [
    | inl (t, e) ↦ absurd (h t e)
    | inr (inl e) ↦ rw (retry_transaction, e)
    | inr (inr e) ↦ rw (retry_transaction, e)
  ]

  -- The attempts from one number on, up to the first that finds the transaction.
  retry_transaction-first :
      (fetch : ℕ → Fetched) (attempts attempt d : ℕ) (t : Transaction) (db : Db)
      → d < attempts
      → ((j : ℕ) → j < d → (u : Transaction) → fetch (attempt + j) ≢ found u)
      → fetch (attempt + d) ≡ found t
      → retry_transaction libs fetch attempts attempt db ≡ process_found libs t db
  retry_transaction-first fetch zero attempt d t db hd before h = absurd (omega arith)
  retry_transaction-first fetch (suc attempts) attempt zero t db hd before h =
      let same : attempt + 0 ≡ attempt = omega arith in
      retry_transaction-found fetch attempts attempt t db (ap fetch (sym same) ∙ h)
  retry_transaction-first fetch (suc attempts) attempt (suc d) t db hd before h =
      let same : attempt + 0 ≡ attempt = omega arith in
      let shift : (j : ℕ) → attempt + suc j ≡ suc attempt + j = λ j. omega arith in
      retry_transaction-next fetch attempts attempt db
        (λ u e. before 0 (omega arith) u (ap fetch same ∙ e))
      ∙ retry_transaction-first fetch attempts (suc attempt) d t db (omega arith)
          (λ j hj u e. before (suc j) (omega arith) u (ap fetch (shift j) ∙ e))
          (ap fetch (sym (shift d)) ∙ h)

  retry_transaction-none :
      (fetch : ℕ → Fetched) (attempts attempt : ℕ) (db : Db)
      → ((j : ℕ) → j < attempts → (u : Transaction) → fetch (attempt + j) ≢ found u)
      → retry_transaction libs fetch attempts attempt db ≡ db
  unfolding retry_transaction
  retry_transaction-none fetch zero attempt db h = refl
  retry_transaction-none fetch (suc attempts) attempt db h =
      let same : attempt + 0 ≡ attempt = omega arith in
      let shift : (j : ℕ) → attempt + suc j ≡ suc attempt + j = λ j. omega arith in
      retry_transaction-next fetch attempts attempt db
        (λ u e. h 0 (omega arith) u (ap fetch same ∙ e))
      ∙ retry_transaction-none fetch attempts (suc attempt) db
          (λ j hj u e. h (suc j) (omega arith) u (ap fetch (shift j) ∙ e))

  process_transaction-error :
      (n : ℕ) (fetch : ℕ → Fetched) (db : Db)
      → fetch 0 ≡ fetch_error
      → process_transaction libs n fetch db ≡ retry_transaction libs fetch n 1 db
  unfolding process_transaction
  process_transaction-error n fetch db h = rw (process_transaction, h)

  -- When the first fetch fails, the transaction that the first successful attempt of the n retries
  -- finds is processed, once: its result is that of processing it alone.
  pub process_transaction-retried :
      (n : ℕ) (fetch : ℕ → Fetched) (d : ℕ) (t : Transaction) (db : Db)
      → fetch 0 ≡ fetch_error
      → d < n
      → ((j : ℕ) → j < d → (u : Transaction) → fetch (1 + j) ≢ found u)
      → fetch (1 + d) ≡ found t
      → process_transaction libs n fetch db ≡ process_found libs t db
  process_transaction-retried n fetch d t db h0 hd before h =
      process_transaction-error n fetch db h0 ∙ retry_transaction-first fetch n 1 d t db hd before h

  -- When the first fetch and all of the n retries fail, nothing changes, and nothing does when the first
  -- fetch finds no row, whatever a retry would find.
  pub process_transaction-given_up :
      (n : ℕ) (fetch : ℕ → Fetched) (db : Db)
      → (fetch 0 ≡ not_found)
        ⊎ ((fetch 0 ≡ fetch_error)
            × ((j : ℕ) → j < n → (u : Transaction) → fetch (1 + j) ≢ found u))
      → process_transaction libs n fetch db ≡ db
  unfolding process_transaction
  process_transaction-given_up n fetch db (inl h) = rw (process_transaction, h)
  process_transaction-given_up n fetch db (inr (h0, h)) =
      process_transaction-error n fetch db h0 ∙ retry_transaction-none fetch n 1 db h
