-- ===== src/Remover/Tests.antt =====
-- The remover's theorems at a concrete database.
use k_indexer.Prelude.{◌≡◌, refl, true, false, inr}
use k_indexer.Text.{codes, text_eq_refl}
use k_indexer.Save.Tests.{alice, voted_db}
use k_indexer.Remover.{Config, is_empty, preview_removal, execute_removal, main}
use k_indexer.Remover.Laws.{IsRemoved, execute_removal-IsRemoved, main_removes}

abbrev asks : Config
asks = record { dry_run = false; skip_confirmation = false }

execute_removal-IsRemoved_example :
    IsRemoved alice voted_db (execute_removal alice voted_db).0 (execute_removal alice voted_db).1
execute_removal-IsRemoved_example = execute_removal-IsRemoved alice voted_db tt

main_removes_example :
    is_empty (preview_removal alice (main asks (codes "DELETE") alice voted_db)) ≡ true
main_removes_example =
    main_removes asks (codes "DELETE") alice voted_db refl (inr (text_eq_refl (codes "DELETE")))
