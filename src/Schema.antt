-- ===== src/Schema.antt =====
-- The schema's management in K-transaction-processor/src/database.rs. A function takes the catalogue and
-- returns it with whether it succeeded; a statement that fails leaves what those before it did. The wait
-- for the table transactions comes before, and lost connections are not modelled.
pub mod Statements
pub mod Scripts
pub mod Laws
pub mod Interrupted
pub mod Stopped
pub mod Beside
pub mod Fresh
pub mod Tests
use k_indexer.Prelude.{
  ℕ, ℤ, pos, negsuc, suc, ◌^◌, ◌-◌, ◌+◌, Bool, true, false, not, ◌&&◌, Option, none, some, List, [],
  ◌∷◌, ◌==◌, if◌then◌else◌, ltb_ℤ,
}
use k_indexer.Text.{Text, codes, text_eq}
use k_indexer.Save.{◌>>=◌}
use k_indexer.Cursor.{parse_digits, neg}
use k_indexer.Page.{eq_ℤ}
use k_indexer.Schema.Statements.{Catalog, exists, lookup, Statement, execute}
use k_indexer.Schema.Scripts.{schema_up, migration_v0_to_v1, migration_v1_to_v2}

abbrev pub schema_version : ℤ
schema_version = pos 2

-- `str::parse::<i32>`.
unfoldable pub parse_i32 : Text → Option ℤ
unfolding parse_digits neg
parse_i32 [] = none
parse_i32 (c ∷ s) =
    if c == b'-'
    then (parse_digits (2 ^ 31) s >>= λ n. some (neg n))
    else if c == b'+'
    then (parse_digits (2 ^ 31 - 1) s >>= λ n. some (pos n))
    else parse_digits (2 ^ 31 - 1) (c ∷ s) >>= λ n. some (pos n)

-- A version that is stored but no number is an error, the outer `none`.
unfoldable pub get_schema_version : Catalog → Option (Option ℤ)
unfolding exists lookup parse_i32
get_schema_version c =
    if not (exists (codes "k_vars") c.tables)
    then some none
    else elim (lookup (codes "schema_version") c.k_vars) [
      | none ↦ some none
      | some value ↦ elim (parse_i32 value) [ none ↦ none | some v ↦ some (some v) ]
    ]

-- A result: whether all went well, and the catalogue as it then is.
abbrev pub Outcome : Type 0
Outcome = Bool × Catalog

abbrev pub and_then : Outcome → (Catalog → Outcome) → Outcome
and_then (true, c) k = k c
and_then (false, c) k = (false, c)

-- The statements in order, up to the first that fails.
unfoldable pub execute_ddl : List Statement → Catalog → Outcome
unfolding execute
execute_ddl [] c = (true, c)
execute_ddl (s ∷ ddl) c = elim (execute s c) [ none ↦ (false, c) | some c' ↦ execute_ddl ddl c' ]

-- The function is made or replaced; the trigger must not be there.
unfoldable pub create_notification_system : Catalog → Outcome
unfolding exists
create_notification_system c =
    let made = record c { has_function = true } in
    if not (exists (codes "transactions") c.tables)
    then (false, made)
    else if c.has_trigger
    then (false, made)
    else (true, record made { has_trigger = true })

unfoldable pub all_exist : (expected names : List Text) → Bool
unfolding exists
all_exist [] names = true
all_exist (e ∷ expected) names = exists e names && all_exist expected names

-- `LIKE 'idx_k_%'`, where an underscore stands for any character.
unfoldable pub like_idx_k : Text → Bool
like_idx_k (a ∷ b ∷ c ∷ _ ∷ e ∷ _ ∷ _) = a == b'i' && b == b'd' && c == b'x' && e == b'k'
like_idx_k _ = false

unfoldable pub count_like : List Text → ℕ
unfolding like_idx_k
count_like [] = 0
count_like (n ∷ names) = let rest = count_like names in if like_idx_k n then suc rest else rest

unfoldable pub expected_tables : List Text
expected_tables =
    codes "k_contents"
    ∷ codes "k_broadcasts"
    ∷ codes "k_votes"
    ∷ codes "k_mentions"
    ∷ codes "k_blocks"
    ∷ codes "k_follows"
    ∷ codes "k_hashtags"
    ∷ []

unfoldable pub expected_indexes : List Text
expected_indexes =
    codes "idx_k_broadcasts_transaction_id"
    ∷ codes "idx_k_broadcasts_sender_pubkey"
    ∷ codes "idx_k_broadcasts_block_time"
    ∷ codes "idx_k_votes_transaction_id"
    ∷ codes "idx_k_votes_sender_pubkey"
    ∷ codes "idx_k_votes_sender_signature_unique"
    ∷ codes "idx_k_votes_post_id"
    ∷ codes "idx_k_votes_vote"
    ∷ codes "idx_k_votes_block_time"
    ∷ codes "idx_k_votes_post_id_sender"
    ∷ codes "idx_k_mentions_comprehensive"
    ∷ codes "idx_k_mentions_content_id"
    ∷ codes "idx_k_mentions_mentioned_pubkey"
    ∷ codes "idx_k_blocks_sender_signature_unique"
    ∷ codes "idx_k_blocks_sender_blocked_user_unique"
    ∷ codes "idx_k_blocks_sender_pubkey"
    ∷ codes "idx_k_blocks_blocked_user_pubkey"
    ∷ codes "idx_k_blocks_block_time"
    ∷ codes "idx_k_contents_transaction_id"
    ∷ codes "idx_k_contents_sender_signature_unique"
    ∷ codes "idx_k_contents_sender_pubkey"
    ∷ codes "idx_k_contents_block_time"
    ∷ codes "idx_k_contents_replies"
    ∷ codes "idx_k_contents_reposts"
    ∷ codes "idx_k_contents_quotes"
    ∷ codes "idx_k_contents_feed_optimized"
    ∷ codes "idx_k_contents_content_type"
    ∷ codes "idx_k_contents_sender_content_type"
    ∷ codes "idx_k_follows_sender_signature_unique"
    ∷ codes "idx_k_follows_sender_followed_user_unique"
    ∷ codes "idx_k_follows_followed_user_pubkey"
    ∷ codes "idx_k_follows_sender_pubkey"
    ∷ codes "idx_k_follows_block_time"
    ∷ codes "idx_k_hashtags_by_hashtag_time"
    ∷ codes "idx_k_hashtags_pattern"
    ∷ codes "idx_k_hashtags_trending"
    ∷ codes "idx_k_hashtags_by_hashtag_sender"
    ∷ []

unfoldable pub is_version : Option (Option ℤ) → Bool
unfolding eq_ℤ
is_version (some (some v)) = eq_ℤ v schema_version
is_version _ = false

unfoldable pub verify_schema_setup : Catalog → Bool
unfolding get_schema_version is_version all_exist expected_tables expected_indexes count_like
verify_schema_setup c =
    is_version (get_schema_version c)
    && all_exist expected_tables c.tables
    && (c.has_function && c.has_trigger)
    && all_exist expected_indexes c.indexes
    && count_like c.indexes == 37

-- The two migrations in sequence, from the version that is there.
unfoldable pub upgrade : ℤ → Catalog → Outcome
unfolding eq_ℤ execute_ddl migration_v0_to_v1 migration_v1_to_v2
upgrade version c =
    if eq_ℤ version (pos 0)
    then and_then (execute_ddl migration_v0_to_v1 c) (execute_ddl migration_v1_to_v2)
    else if eq_ℤ version (pos 1)
    then execute_ddl migration_v1_to_v2 c
    else (true, c)

unfoldable pub create_fresh : Catalog → Outcome
unfolding execute_ddl schema_up create_notification_system
create_fresh c = and_then (execute_ddl schema_up c) create_notification_system

-- The match on the version; a version that is no number is an error.
unfoldable pub prepare_from : (upgrade_db : Bool) → Option (Option ℤ) → Catalog → Outcome
unfolding upgrade create_fresh
prepare_from upgrade_db none c = (false, c)
prepare_from upgrade_db (some none) c = create_fresh c
prepare_from upgrade_db (some (some v)) c =
    if ltb_ℤ v schema_version
    then (if upgrade_db then upgrade v c else (false, c))
    else if ltb_ℤ schema_version v
    then (false, c)
    else (true, c)

unfoldable pub prepare : (upgrade_db : Bool) → Catalog → Outcome
unfolding get_schema_version prepare_from
prepare upgrade_db c = prepare_from upgrade_db (get_schema_version c) c

unfoldable pub create_schema : (upgrade_db : Bool) → Catalog → Outcome
unfolding prepare verify_schema_setup
create_schema upgrade_db c = and_then (prepare upgrade_db c) (λ c. (verify_schema_setup c, c))

-- The match on the stored network.
unfoldable pub settle_network : (network : Text) → Option Text → Catalog → Outcome
settle_network network (some stored_network) c = (text_eq stored_network network, c)
settle_network network none c = (true, record c { k_vars = (codes "network", network) ∷ c.k_vars })

-- The network is stored once; the query fails where there is no table k_vars.
unfoldable pub set_and_verify_network : (network : Text) → Catalog → Outcome
unfolding exists lookup settle_network
set_and_verify_network network c =
    if not (exists (codes "k_vars") c.tables)
    then (false, c)
    else settle_network network (lookup (codes "network") c.k_vars) c
