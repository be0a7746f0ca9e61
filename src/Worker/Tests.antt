-- ===== src/Worker/Tests.antt =====
-- The worker's theorems at concrete fetches.
use k_indexer.Prelude.{ℕ, zero, suc, ◌+◌, ◌<◌, ◌≡◌, ◌≢◌, inl, refl, [], ◌∷◌, arith}
use k_indexer.Store.{empty_db}
use k_indexer.Store.Invariant.{IsConsistent}
use k_indexer.Save.Authentic.{IsAuthentic}
use k_indexer.Save.{Transaction}
use k_indexer.Save.Tests.{toy_libs, vote_transaction}
use k_indexer.Worker.{
  Fetched, found, not_found, fetch_error, process_found, process_transaction, start,
}
use k_indexer.Worker.Laws.{
  start-keeps_invariants, process_transaction-retried, process_transaction-given_up,
}

-- The first fetch fails, the first retry finds no row, and the second finds the vote.
abbrev late : ℕ → Fetched
late zero = fetch_error
late (suc zero) = not_found
late (suc (suc n)) = found vote_transaction

abbrev absent : ℕ → Fetched
absent n = not_found

late-before : (j : ℕ) → j < 1 → (u : Transaction) → late (1 + j) ≢ found u
late-before zero hj u e = absurd (cc)
late-before (suc j) hj u e = absurd (omega arith)

start-keeps_invariants_example :
    IsConsistent (start toy_libs 3 (late ∷ absent ∷ []) empty_db)
    × IsAuthentic toy_libs (start toy_libs 3 (late ∷ absent ∷ []) empty_db)
start-keeps_invariants_example = start-keeps_invariants toy_libs 3 (late ∷ absent ∷ [])

process_transaction-retried_example :
    process_transaction toy_libs 3 late empty_db ≡ process_found toy_libs vote_transaction empty_db
process_transaction-retried_example =
    process_transaction-retried toy_libs 3 late 1 vote_transaction empty_db refl (omega arith)
      late-before refl

process_transaction-given_up_example : process_transaction toy_libs 3 absent empty_db ≡ empty_db
process_transaction-given_up_example =
    process_transaction-given_up toy_libs 3 absent empty_db (inl refl)
