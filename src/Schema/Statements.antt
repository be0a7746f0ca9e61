-- ===== src/Schema/Statements.antt =====
-- The catalogue of PostgreSQL, as far as K-transaction-processor/src/database.rs and the files of
-- K-transaction-processor/src/migrations/schema ask for it or change it: the names of tables, indexes
-- and constraints, the rows of k_vars, and whether the function and the trigger are there;
-- also whether the extension pg_stat_statements is there or can be made, which the server decides. A unique
-- index over rows that clash, and the indexes that constraints bring along, are left out.
use k_indexer.Prelude.{Bool, false, not, ◌||◌, Option, none, some, List, [], ◌∷◌, if◌then◌else◌}
use k_indexer.Text.{Text, codes, text_eq}

pub record Catalog : Type 0 where
  pub tables : List Text
  pub indexes : List Text
  pub constraints : List Text
  pub k_vars : List (Text × Text)
  pub has_function : Bool
  pub has_trigger : Bool
  pub can_extend : Bool

unfoldable pub exists : Text → List Text → Bool
exists name [] = false
exists name (n ∷ names) = text_eq name n || exists name names

unfoldable pub without : Text → List Text → List Text
without name [] = []
without name (n ∷ names) =
    let rest = without name names in if text_eq name n then rest else n ∷ rest

unfoldable pub lookup : Text → List (Text × Text) → Option Text
lookup key [] = none
lookup key ((k, v) ∷ vars) = let rest = lookup key vars in if text_eq key k then some v else rest

-- `UPDATE k_vars SET value = … WHERE key = …`.
unfoldable pub update : (key value : Text) → List (Text × Text) → List (Text × Text)
update key value [] = []
update key value ((k, v) ∷ vars) =
    let rest = update key value vars in if text_eq key k then (k, value) ∷ rest else (k, v) ∷ rest

-- The statements of the files.
pub data Statement : Type 0 where
  create_extension : Statement
  create_table : (name : Text) → Statement
  create_index : (name table : Text) → Statement
  drop_index : (name : Text) → Statement
  add_foreign_key : (table name referenced : Text) → Statement
  insert_var update_var : (key value : Text) → Statement

-- `none` is an error of the database; tables and indexes are made if they are not there, while a
-- constraint that is there is an error.
unfoldable pub execute : Statement → Catalog → Option Catalog
unfolding exists without lookup update
execute create_extension c = if c.can_extend then some c else none
execute (create_table name) c =
    if exists name c.tables then some c else some (record c { tables = name ∷ c.tables })
execute (create_index name table) c =
    if not (exists table c.tables)
    then none
    else if exists name c.indexes
    then some c
    else some (record c { indexes = name ∷ c.indexes })
execute (drop_index name) c = some (record c { indexes = without name c.indexes })
execute (add_foreign_key table name referenced) c =
    if not (exists table c.tables) || not (exists referenced c.tables) || exists name c.constraints
    then none
    else some (record c { constraints = name ∷ c.constraints })
execute (insert_var key value) c =
    if not (exists (codes "k_vars") c.tables) then none else elim (lookup key c.k_vars) [
      | some _ ↦ some c
      | none ↦ some (record c { k_vars = (key, value) ∷ c.k_vars })
    ]
execute (update_var key value) c =
    if not (exists (codes "k_vars") c.tables)
    then none
    else some (record c { k_vars = update key value c.k_vars })
