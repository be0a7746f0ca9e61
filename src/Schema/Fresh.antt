-- ===== src/Schema/Fresh.antt =====
-- The first set-up of K-transaction-processor/src/database.rs in a database that others use too.
use k_indexer.Prelude.{
  ℕ, suc, ◌+◌, ◌≡◌, refl, ap, ◌∙◌, Bool, true, false, not, none, some, List, [], ◌∷◌, ◌++◌,
  if◌then◌else◌, ◌==◌, arith,
}
use k_indexer.Text.{Text, codes, text_eq}
use k_indexer.Schema.Beside.{Others, over, all_clear, both, execute_ddl-over}
use k_indexer.Schema.Statements.{Catalog, exists, execute}
use k_indexer.Schema.Scripts.{schema_up}
use k_indexer.Schema.{
  Outcome, and_then, get_schema_version, verify_schema_setup, create_fresh,
  create_notification_system, prepare_from, prepare, create_schema, like_idx_k, count_like,
  execute_ddl,
}

-- The main indexer's table alone, where the extension can be made or not.
abbrev pub start : (can_extend : Bool) → Catalog
start can_extend = record {
  tables = codes "transactions" ∷ [];
  indexes = [];
  constraints = [];
  k_vars = [];
  has_function = false;
  has_trigger = false;
  can_extend = can_extend;
}

k_vars-all_clear :
    (o : Others) → all_clear o schema_up ≡ true → not (exists (codes "k_vars") o.tables) ≡ true
unfolding all_clear schema_up
k_vars-all_clear o h = (both (not (exists (codes "k_vars") o.tables)) _ h).0

if-suc : (b : Bool) (m n : ℕ) → (if b then suc (m + n) else m + n) ≡ (if b then suc m else m) + n
if-suc true m n = omega arith
if-suc false m n = refl

count_like-append : (xs ys : List Text) → count_like (xs ++ ys) ≡ count_like xs + count_like ys
unfolding count_like
count_like-append [] ys = omega arith
count_like-append (x ∷ xs) ys =
    rw (count_like-append xs ys) (if-suc (like_idx_k x) (count_like xs) (count_like ys))

-- There is no version yet.
get_schema_version-over :
    (can_extend : Bool) (o : Others)
    → all_clear o schema_up ≡ true
    → get_schema_version (over o (start can_extend)) ≡ some none
unfolding get_schema_version text_eq over
get_schema_version-over can_extend o h = rw (k_vars-all_clear o h)

create_fresh-over :
    (o : Others)
    → all_clear o schema_up ≡ true
    → create_fresh (over o (start true)) ≡ (true, over o (create_fresh (start true)).1)
unfolding create_fresh text_eq over
create_fresh-over o h =
    ap (λ r. and_then r create_notification_system) (execute_ddl-over o schema_up (start true) h)

verify_schema_setup-over :
    (o : Others)
    → count_like o.indexes ≡ 0
    → verify_schema_setup (over o (create_fresh (start true)).1) ≡ true
unfolding verify_schema_setup create_fresh text_eq over
verify_schema_setup-over o n =
    let made = (create_fresh (start true)).1.indexes in
    ap (λ k. k == 37) (count_like-append made o.indexes ∙ ap (λ k. count_like made + k) n)

verified : Catalog → Outcome
verified c = (verify_schema_setup c, c)

create_schema-over_start :
    (upgrade_db : Bool) (o : Others)
    → all_clear o schema_up ≡ true
    → count_like o.indexes ≡ 0
    → create_schema upgrade_db (over o (start true)) ≡ (true, over o (create_fresh (start true)).1)
unfolding create_schema prepare prepare_from verified
create_schema-over_start upgrade_db o h n =
    ap (λ v. and_then (prepare_from upgrade_db v (over o (start true))) verified)
      (get_schema_version-over true o h)
    ∙ ap (λ r. and_then r verified) (create_fresh-over o h)
    ∙ ap (λ b. (b, over o (create_fresh (start true)).1)) (verify_schema_setup-over o n)

create_schema-over_refused :
    (upgrade_db : Bool) (o : Others)
    → all_clear o schema_up ≡ true
    → create_schema upgrade_db (over o (start false)) ≡ (false, over o (start false))
unfolding create_schema prepare prepare_from create_fresh execute_ddl schema_up execute over
    verified
create_schema-over_refused upgrade_db o h =
    ap (λ v. and_then (prepare_from upgrade_db v (over o (start false))) verified)
      (get_schema_version-over false o h)

-- A first set-up beside the tables of others succeeds, whatever the flag, exactly if the extension can be
-- made, and leaves what it would leave without them and theirs, if none of them has a name that it uses and
-- no index of theirs is counted.
pub create_schema-over :
    (upgrade_db can_extend : Bool) (o : Others)
    → all_clear o schema_up ≡ true
    → count_like o.indexes ≡ 0
    → create_schema upgrade_db (over o (start can_extend))
      ≡ (can_extend, over o (create_schema upgrade_db (start can_extend)).1)
unfolding create_schema text_eq
create_schema-over upgrade_db true o h n = create_schema-over_start upgrade_db o h n
create_schema-over upgrade_db false o h n = create_schema-over_refused upgrade_db o h
