-- ===== src/Lib.antt =====
-- K-indexer: an indexer of the K social protocol on the Kaspa block DAG.
--
-- The program has four executables around one PostgreSQL database. K-transaction-processor listens for
-- transactions whose payload begins with "k:1:", hands their ids to workers in turn, parses each payload
-- into an action, checks the sender's signature and stores the action. K-database-cleaner purges what its
-- user does not want to keep, K-content-remover deletes one sender's rows, and K-webserver reads. The
-- development models the three that write and, of the reader, the routes, the handlers, what they make
-- of records, the cursors and the pages.
--
-- Prelude       native numbers, lists, tests and integers, and the libraries' names
-- Text          text as code points: split and join (Text/Split), UTF-8 (Text/Utf8)
-- Protocol      K-transaction-processor/src/k_protocol.rs: the actions, the parser (Protocol/Parse) and the
--               signed messages (Protocol/Messages); what the parser accepts (Protocol/Sound,
--               Protocol/RoundTrip) and what a signature binds (Protocol/Binding)
-- Store         K-transaction-processor/src/migrations/schema/up.sql: the tables, the statements on them
--               (Store/Statements) and what they keep true (Store/Invariant, Store/Keeps)
-- Hashtags      K-transaction-processor/src/hashtag_extractor.rs
-- Schema        K-transaction-processor/src/database.rs and the files of src/migrations/schema beside it:
--               create_schema and set_and_verify_network over the catalogue (Schema/Statements,
--               Schema/Scripts), what they establish (Schema/Laws) and what a stopped run leaves
--               (Schema/Interrupted, Schema/Stopped)
-- Save          k_protocol.rs again: verify_kaspa_signature, the save functions and process_k_transaction
--               (Save, Save/Process); that each executes one statement at most (Save/Executes), and what
--               follows (the other children)
-- Queue         K-transaction-processor/src/queue.rs
-- Worker        K-transaction-processor/src/worker.rs
-- Cleaner       K-database-cleaner/src/purge_operations and its main.rs
-- Remover       K-content-remover/src/removal_operation.rs and its main.rs
-- RateLimit     check_rate_limit of K-webserver/src/web_server.rs
-- Cursor        the cursors of K-webserver/src/database_postgres_impl.rs
-- Page          the pages of get_all_users there, and a client that walks over them (Page/Walk)
-- Models        K-webserver/src/models.rs: records, answers and the conversions between them
-- Api           K-webserver/src/api_handlers.rs over the trait of database_trait.rs: the handlers
--               (Api/Posts, Api/Users, Api/Details), the requests they answer (Api/Requests), what their
--               checks let through and which errors they give (Api/Guards), and what they hide
--               (Api/Masking, Api/Hidden)
-- Routes        K-webserver/src/web_server.rs: the routes (Routes/Lists, Routes/People), the router
--               (Routes/Calls), the statuses (Routes/Status), the rate limit in front (Routes/Limits) and
--               how much the routes ask of the database (Routes/Modest)
--
-- State is passed explicitly: Store.Db holds the tables, a function of the processor takes it and returns
-- `Option Db`, where `none` is the source's `Err`. A save function executes one statement at most, and the
-- theorems are about statements that run one after the other. Of workers that run side by side they say
-- nothing: the statement that replaces a broadcast reads one snapshot and no unique index on the sender
-- guards it, so two of them at the same time may leave two broadcasts of one sender. A constraint that a
-- statement violates is an error; a lost connection is not modelled there, but the cleaner's operations
-- may fail and the worker's fetches may too.
--
-- The handlers of K-webserver read alone: a handler is a function of what the queries yield at the time of
-- the request, and a route of that and of the map of the rate limit.
--
-- Parameters stand for the crates hex, serde_json, base64 and kaspa-wallet-core, with their documented laws
-- as fields, for the Unicode tables behind regex and to_lowercase (Save.Libs, Hashtags.TextLibs), for the
-- rows that a fetch from the table `transactions` returns (Worker.Fetched), and for whether the server can
-- make the extension pg_stat_statements (Schema.Statements.Catalog). Every loop is a recursion on the list
-- that it reads or on the number of retries, but for the digits of a printed number, whose fuel is the
-- number plus one, and a client's walk over the pages, for which one page more than there are rows is
-- enough.
--
-- Not modelled: the SQL of K-webserver's other queries (they are the fields of Api.DatabaseInterface), its
-- start-up, the layers of axum and tower, the wait for the table transactions, the listener's
-- reconnect loop, the reindexing service, command lines, logs, and delays.
pub mod Prelude
pub mod Text
pub mod Protocol
pub mod Store
pub mod Hashtags
pub mod Save
pub mod Queue
pub mod Worker
pub mod Cleaner
pub mod Remover
pub mod RateLimit
pub mod Cursor
pub mod Page
pub mod Models
pub mod Api
pub mod Routes
pub mod Schema
