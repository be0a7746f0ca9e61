-- ===== src/Schema/Beside.antt =====
-- Statements of K-transaction-processor/src/migrations/schema in a database that others use too.
use k_indexer.Prelude.{
  ◌≡◌, refl, ap, ◌∙◌, Bool, true, false, not, ◌&&◌, ◌||◌, Option, none, some, List, [], ◌∷◌, ◌++◌,
  if◌then◌else◌, arith,
}
use k_indexer.Text.{Text, codes, text_eq}
use k_indexer.Schema.Statements.{
  Catalog, exists, without, lookup, update, Statement, create_extension, create_table, create_index,
  drop_index, add_foreign_key, insert_var, update_var, execute,
}
use k_indexer.Schema.{Outcome, execute_ddl}

-- What others have made.
pub record Others : Type 0 where
  pub tables : List Text
  pub indexes : List Text
  pub constraints : List Text

unfoldable pub over : Others → Catalog → Catalog
over o c = record c {
  tables = c.tables ++ o.tables;
  indexes = c.indexes ++ o.indexes;
  constraints = c.constraints ++ o.constraints;
}

-- None of it has a name that a statement uses.
unfoldable pub is_clear : Others → Statement → Bool
unfolding exists
is_clear o create_extension = true
is_clear o (create_table name) = not (exists name o.tables)
is_clear o (create_index name table) = not (exists table o.tables) && not (exists name o.indexes)
is_clear o (drop_index name) = not (exists name o.indexes)
is_clear o (add_foreign_key table name referenced) =
    not (exists table o.tables)
    && not (exists referenced o.tables)
    && not (exists name o.constraints)
is_clear o (insert_var key value) = not (exists (codes "k_vars") o.tables)
is_clear o (update_var key value) = not (exists (codes "k_vars") o.tables)

unfoldable pub all_clear : Others → List Statement → Bool
unfolding is_clear
all_clear o [] = true
all_clear o (s ∷ ddl) = is_clear o s && all_clear o ddl

exists-append :
    (name : Text) (xs ys : List Text)
    → not (exists name ys) ≡ true
    → exists name (xs ++ ys) ≡ exists name xs
unfolding exists
exists-append name [] ys h = ground (arith, h)
exists-append name (x ∷ xs) ys h = ap (λ b. text_eq name x || b) (exists-append name xs ys h)

without-absent : (name : Text) (ys : List Text) → not (exists name ys) ≡ true → without name ys ≡ ys
unfolding exists without
without-absent name [] h = refl
without-absent name (y ∷ ys) h = ground (arith, without-absent name ys)

without-append :
    (name : Text) (xs ys : List Text)
    → not (exists name ys) ≡ true
    → without name (xs ++ ys) ≡ without name xs ++ ys
unfolding without
without-append name [] ys h = without-absent name ys h
without-append name (x ∷ xs) ys h =
    rw (without-append name xs ys h)
      (elim (text_eq name x)
        as (λ b.
          (if b then without name xs ++ ys else x ∷ (without name xs ++ ys))
          ≡ ((if b then without name xs else x ∷ without name xs) ++ ys)) [
            | true ↦ refl
            | false ↦ refl
          ])

pub both : (a b : Bool) → (a && b) ≡ true → (a ≡ true) × (b ≡ true)
both a b h = ground arith

abbrev map_some : (Catalog → Catalog) → Option Catalog → Option Catalog
map_some f none = none
map_some f (some c) = some (f c)

map_some-if :
    (f : Catalog → Catalog) (b : Bool) (x y : Option Catalog)
    → (if b then map_some f x else map_some f y) ≡ map_some f (if b then x else y)
map_some-if f true x y = refl
map_some-if f false x y = refl

map_some-if₂ :
    (f : Catalog → Catalog) (a b : Bool) (x y z : Option Catalog)
    → (if a then map_some f x else if b then map_some f y else map_some f z)
      ≡ map_some f (if a then x else if b then y else z)
map_some-if₂ f true b x y z = refl
map_some-if₂ f false b x y z = map_some-if f b y z

map_some-lookup :
    (f : Catalog → Catalog) (a : Bool) (l : Option Text) (x y : Catalog)
    → (if a then none else elim l [ some _ ↦ some (f x) | none ↦ some (f y) ])
      ≡ map_some f (if a then none else elim l [ some _ ↦ some x | none ↦ some y ])
map_some-lookup f true l x y = refl
map_some-lookup f false none x y = refl
map_some-lookup f false (some v) x y = refl

-- A statement does the same whether others have used the database or not.
execute-over :
    (o : Others) (s : Statement) (c : Catalog)
    → is_clear o s ≡ true
    → execute s (over o c) ≡ map_some (over o) (execute s c)
unfolding execute is_clear over
execute-over o create_extension c h = map_some-if (over o) c.can_extend (some c) none
execute-over o (create_table name) c h = rw (exists-append name c.tables o.tables h) (
    map_some-if (over o) (exists name c.tables) (some c)
      (some (record c { tables = name ∷ c.tables })))
execute-over o (create_index name table) c h =
    let k = both (not (exists table o.tables)) (not (exists name o.indexes)) h in
    let made = some (record c { indexes = name ∷ c.indexes }) in
    rw (exists-append table c.tables o.tables k.0, exists-append name c.indexes o.indexes k.1)
      (map_some-if₂ (over o) (not (exists table c.tables)) (exists name c.indexes) none (some c)
        made)
execute-over o (drop_index name) c h = rw (without-append name c.indexes o.indexes h)
execute-over o (add_foreign_key table name referenced) c h =
    let k =
      both (not (exists table o.tables) && not (exists referenced o.tables))
        (not (exists name o.constraints)) h in
    let l = both (not (exists table o.tables)) (not (exists referenced o.tables)) k.0 in
    rw
      (
        exists-append table c.tables o.tables l.0,
        exists-append referenced c.tables o.tables l.1,
        exists-append name c.constraints o.constraints k.1,
      )
      (map_some-if (over o)
        (not (exists table c.tables)
          || not (exists referenced c.tables)
          || exists name c.constraints)
        none (some (record c { constraints = name ∷ c.constraints })))
execute-over o (insert_var key value) c h =
    rw (exists-append (codes "k_vars") c.tables o.tables h) (
      map_some-lookup (over o) (not (exists (codes "k_vars") c.tables)) (lookup key c.k_vars) c
        (record c { k_vars = (key, value) ∷ c.k_vars }))
execute-over o (update_var key value) c h =
    rw (exists-append (codes "k_vars") c.tables o.tables h) (
      map_some-if (over o) (not (exists (codes "k_vars") c.tables)) none
        (some (record c { k_vars = update key value c.k_vars })))

-- The rest of a list of statements, behind the result of its first.
abbrev continued : List Statement → Catalog → Option Catalog → Outcome
continued ddl c none = (false, c)
continued ddl c (some c') = execute_ddl ddl c'

continued-over :
    (o : Others) (ddl : List Statement) (c : Catalog)
    → ((c' : Catalog)
        → execute_ddl ddl (over o c') ≡ ((execute_ddl ddl c').0, over o (execute_ddl ddl c').1))
    → (x : Option Catalog)
    → continued ddl (over o c) (map_some (over o) x)
      ≡ ((continued ddl c x).0, over o (continued ddl c x).1)
continued-over o ddl c f none = refl
continued-over o ddl c f (some c') = f c'

pub execute_ddl-over :
    (o : Others) (ddl : List Statement) (c : Catalog)
    → all_clear o ddl ≡ true
    → execute_ddl ddl (over o c) ≡ ((execute_ddl ddl c).0, over o (execute_ddl ddl c).1)
unfolding execute_ddl all_clear
execute_ddl-over o [] c h = refl
execute_ddl-over o (s ∷ ddl) c h =
    let k = both (is_clear o s) (all_clear o ddl) h in
    ap (continued ddl (over o c)) (execute-over o s c k.0)
    ∙ continued-over o ddl c (λ c'. execute_ddl-over o ddl c' k.1) (execute s c)
