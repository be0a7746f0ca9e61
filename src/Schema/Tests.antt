-- ===== src/Schema/Tests.antt =====
-- Set-ups of a database that only the main indexer has used.
use k_indexer.Prelude.{◌≡◌, refl, true, false, [], ◌∷◌}
use k_indexer.Text.{codes, text_eq}
use k_indexer.Schema.Statements.{Catalog}
use k_indexer.Schema.Scripts.{schema_up}
use k_indexer.Schema.{get_schema_version, create_schema, count_like, set_and_verify_network}
use k_indexer.Schema.Laws.{create_schema_idempotent, network_stays}
use k_indexer.Schema.Beside.{Others, over, all_clear}
use k_indexer.Schema.Fresh.{start, create_schema-over}
use k_indexer.Schema.Interrupted.{interrupted_migration}

abbrev with_version : Catalog
with_version = record (start true) {
  tables = codes "k_vars" ∷ codes "transactions" ∷ [];
  k_vars = (codes "schema_version", codes "1") ∷ [];
}

abbrev with_key : Catalog
with_key = record with_version { constraints = codes "fk_k_hashtags_content" ∷ [] }

-- A first set-up succeeds.
first_setup : (create_schema false (start true)).0 ≡ true
unfolding create_schema text_eq
first_setup = refl

create_schema_idempotent_example :
    create_schema true (create_schema false (start true)).1
    ≡ (true, (create_schema false (start true)).1)
create_schema_idempotent_example = create_schema_idempotent false true (start true) first_setup

network_stays_example :
    set_and_verify_network
      (codes "testnet-10")
      (set_and_verify_network (codes "mainnet") with_version).1
    ≡ (
      text_eq (codes "mainnet") (codes "testnet-10"),
      (set_and_verify_network (codes "mainnet") with_version).1,
    )
unfolding set_and_verify_network text_eq
network_stays_example = network_stays (codes "mainnet") with_version refl (codes "testnet-10")

interrupted_migration_example : (create_schema true with_key).0 ≡ false
unfolding get_schema_version text_eq
interrupted_migration_example = interrupted_migration true with_key refl refl

-- The main indexer's own index, and a table of blocks.
abbrev kaspa : Others
kaspa = record {
  tables = codes "blocks" ∷ [];
  indexes = codes "idx_blocks_hash" ∷ [];
  constraints = [];
}

create_schema-over_example :
    create_schema false (over kaspa (start true))
    ≡ (true, over kaspa (create_schema false (start true)).1)
unfolding all_clear schema_up text_eq count_like
create_schema-over_example = create_schema-over false true kaspa refl refl
