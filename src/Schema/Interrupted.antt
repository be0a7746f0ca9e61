-- ===== src/Schema/Interrupted.antt =====
-- What a process that is stopped between two statements leaves behind: the files of
-- K-transaction-processor/src/migrations/schema run without a transaction around them.
use k_indexer.Prelude.{
  pos, ◌≡◌, refl, ap, ◌∙◌, Bool, true, false, not, ◌||◌, Option, none, some, List, [], ◌∷◌,
  if◌then◌else◌, Bool-cases, inl, inr, arith,
}
use k_indexer.Text.{Text, codes, text_eq, eq_of_text_eq}
use k_indexer.Schema.Statements.{
  Catalog, exists, lookup, Statement, create_extension, create_table, create_index, drop_index,
  add_foreign_key, insert_var, update_var, execute,
}
use k_indexer.Schema.Scripts.{migration_v1_to_v2}
use k_indexer.Schema.{
  Outcome, and_then, get_schema_version, execute_ddl, upgrade, prepare_from, prepare, create_schema,
}

-- A statement that would make a constraint.
abbrev is_adding : Text → Statement → Bool
is_adding name (add_foreign_key _ n _) = text_eq n name
is_adding name _ = false

abbrev adds : Text → List Statement → Bool
adds name [] = false
adds name (s ∷ ddl) = is_adding name s || adds name ddl

-- A constraint is there still, or the statement failed.
data Holds (name : Text) : Option Catalog → Type 0 where
  fails : Holds name none
  holds : (c : Catalog) → exists name c.constraints ≡ true → Holds name (some c)

Holds-if :
    (name : Text) (b : Bool) {x y : Option Catalog}
    → Holds name x
    → Holds name y
    → Holds name (if b then x else y)
Holds-if name true h k = h
Holds-if name false h k = k

or_true : (b : Bool) → (b || true) ≡ true
or_true true = refl
or_true false = refl

-- No statement drops a constraint.
execute-Holds :
    (name : Text) (s : Statement) (c : Catalog)
    → exists name c.constraints ≡ true
    → Holds name (execute s c)
unfolding execute
execute-Holds name create_extension c h = Holds-if name c.can_extend (holds c h) fails
execute-Holds name (create_table n) c h = Holds-if name (exists n c.tables) (holds c h) (holds _ h)
execute-Holds name (create_index n t) c h =
    Holds-if name (not (exists t c.tables)) fails
      (Holds-if name (exists n c.indexes) (holds c h) (holds _ h))
execute-Holds name (drop_index n) c h = holds _ h
execute-Holds name (add_foreign_key t n r) c h =
    Holds-if name (not (exists t c.tables) || not (exists r c.tables) || exists n c.constraints)
      fails (holds _ (ap (λ b. text_eq name n || b) h ∙ or_true (text_eq name n)))
execute-Holds name (insert_var key value) c h =
    Holds-if name (not (exists (codes "k_vars") c.tables)) fails
      (elim (lookup key c.k_vars)
        as (λ o. Holds name (elim o [
          | some _ ↦ some c
          | none ↦ some (record c { k_vars = (key, value) ∷ c.k_vars })
        ])) [ some _ ↦ holds c h | none ↦ holds _ h ])
execute-Holds name (update_var key value) c h =
    Holds-if name (not (exists (codes "k_vars") c.tables)) fails (holds _ h)

-- A statement that would make a constraint that is there fails.
execute-is_adding :
    (name : Text) (s : Statement) (c : Catalog)
    → exists name c.constraints ≡ true
    → is_adding name s ≡ true
    → execute s c ≡ none
unfolding execute
execute-is_adding name (add_foreign_key t n r) c h a =
    rw (eq_of_text_eq n name a, h, or_true (not (exists t c.tables) || not (exists r c.tables)))
execute-is_adding name _ c h a = ground arith

rest : (a b : Bool) → a ≡ false → (a || b) ≡ true → b ≡ true
rest true b h k = ground arith
rest false b h k = k

past :
    (name : Text) (ddl : List Statement) (c : Catalog)
    → ((c' : Catalog) → exists name c'.constraints ≡ true → (execute_ddl ddl c').0 ≡ false)
    → (o : Option Catalog) → Holds name o
    → (elim o as (λ _. Outcome) [ none ↦ (false, c) | some c' ↦ execute_ddl ddl c' ]).0 ≡ false
past name ddl c f _ fails = refl
past name ddl c f _ (holds c' h) = f c' h

execute_ddl-adds :
    (name : Text) (ddl : List Statement) (c : Catalog)
    → exists name c.constraints ≡ true
    → adds name ddl ≡ true
    → (execute_ddl ddl c).0 ≡ false
unfolding execute_ddl
execute_ddl-adds name [] c h a = ground arith
execute_ddl-adds name (s ∷ ddl) c h a = elim (Bool-cases (is_adding name s)) [
  | inl e ↦ rw (execute-is_adding name s c h e, execute_ddl)
  | inr e ↦
      past name ddl c
        (λ c' h'. execute_ddl-adds name ddl c' h' (rest (is_adding name s) (adds name ddl) e a))
        (execute s c) (execute-Holds name s c h)
]

and_then-false : (o : Outcome) (k : Catalog → Outcome) → o.0 ≡ false → (and_then o k).0 ≡ false
and_then-false (true, c) k h = ground arith
and_then-false (false, c) k h = refl

-- A migration to version 2 that was stopped behind its foreign key and before its last statement, or in any
-- way that leaves version 1 with the key, is never completed: every later set-up fails.
pub interrupted_migration :
    (upgrade_db : Bool) (c : Catalog)
    → get_schema_version c ≡ some (some (pos 1))
    → exists (codes "fk_k_hashtags_content") c.constraints ≡ true
    → (create_schema upgrade_db c).0 ≡ false
unfolding create_schema prepare prepare_from upgrade migration_v1_to_v2 text_eq
interrupted_migration true c v h =
    and_then-false (prepare true c) _
      (rw v (execute_ddl-adds (codes "fk_k_hashtags_content") migration_v1_to_v2 c h refl))
interrupted_migration false c v h = and_then-false (prepare false c) _ (rw v)
