-- ===== src/Schema/Stopped.antt =====
-- A first set-up that is stopped on its way: up.sql of K-transaction-processor/src/migrations/schema runs
-- without a transaction around it.
use k_indexer.Prelude.{ℕ, zero, suc, ◌+◌, Bool, true, not, ◌&&◌, take}
use k_indexer.Schema.Statements.{Catalog}
use k_indexer.Schema.Scripts.{schema_up}
use k_indexer.Schema.Fresh.{start}
use k_indexer.Schema.{get_schema_version, is_version, verify_schema_setup, execute_ddl}

-- What the first n statements leave.
abbrev pub stopped : ℕ → Catalog
stopped n = (execute_ddl (take n schema_up) (start true)).1

-- A catalogue of the present version that is not whole.
is_partial : Catalog → Bool
is_partial c = is_version (get_schema_version c) && not (verify_schema_setup c)

-- A test of all numbers from 3 to 2 + k.
every : (ℕ → Bool) → ℕ → Bool
every p zero = true
every p (suc k) = p (3 + k) && every p k
