-- ===== src/Lib.antt =====
-- The payment watcher of Shopble: orders are created by an API, buyers pay them on the Stellar
-- test network, a watcher reads the payments from Horizon, decides on each against its order,
-- records the evidence, and writes the outcome to a Soroban contract. A report sums a campaign
-- up. The paths below are from the root of the repository, and project/shopble is left out
-- where a path starts with api/apierr, api/v1, lib, models or services.
--
-- Parts and files:
--
--   Models.Status, Models.Order, Models.Evidence: models/order_intent.go and
--     models/payment_evidence.go. `OrderFinal` is order_final, `CanTransition` is
--     can_transition, `ValidRejectReason` is valid_reject_reason.
--   Stellar.Config, Stellar.Horizon, Stellar.Instruction: lib/libstellar. `validate` and the
--     loader are validate and load_config, `FetchPayments` is fetch_payments,
--     `BuildInstruction` is build_instruction. Stellar.Text holds the functions of Go's
--     standard library that these use.
--   Soroban.Value, Soroban.Client: lib/libsoroban/scval.go and client.go. `statusScVal` is
--     status_sc_val, `invoke` is invoke. Soroban.Sdk is the interface of
--     github.com/stellar/go, and Soroban.Call the chain of calls that may fail.
--   Watcher.Matcher: services/watcher/matcher.go, whose `Match` is match and `Terminal` is
--     terminal.
--   Watcher.Process, Watcher.Chain, Watcher.Poll: services/watcher/watcher.go. The
--     transaction of `process` is process_db, with what follows it it is process;
--     `writeChain` and `syncChain` are write_chain and sync_chain; `pollOnce` is poll_once
--     and `Start` is start. Watcher.Database is the interface of gorm and PostgreSQL;
--     Watcher.Process.Spec says what a payment does to the tables.
--   Api: api/apierr/apierr.go and api/v1. The handlers are create_order, get_order,
--     list_orders, list_evidence and get_order_evidence.
--   Report.Coverage, Report.Cells, Report.Markdown: services/report/report.go, whose
--     `Summarize` is summarize and `Markdown` is markdown.
--   Watcher.Ledger, System: which evidence an order's status must have, and the watchers and
--     the API over one database as steps that come in any order. System.Rounds shows that the
--     rounds of a watcher are made of such steps.
--   Shared: common/comtypes/set_order.go, hash_set.go and singleton.go,
--     common/comretry/manager.go, and common/comutils/collection.go and number.go.
--     Middleware: api/middleware/encryption.go, whose `VerifyRequest` is verify_request.
--   Contract: contracts/order-status/src/lib.rs, the contract in Rust. `create_order` is
--     register_order, `set_status` is record_status, `can_transition` is chain_transition.
--     Contract.Agreement sets its statuses against the program's, Contract.Writes runs the
--     watcher's writes against it, and Contract.History is about the calls that must have
--     come before a verdict.
--   Database.Txn: database/sql_txn.go. `Txn` is txn, `OnTxCommit` is on_tx_commit; what a
--     caller does in a transaction is a Program.
--   Shared.RateLimiter, Shared.Consumer, Shared.Hub, Shared.Runner: `Get` of the singleton
--     under its lock is the Step of Shared.Singleton.Interleaved; `RunInRateLimit` of
--     common/comlock/rate_limiter.go is run_in_rate_limit, the loop of
--     common/comqueue/consumer.go is run_turn, common/comsocket/manager.go is the hub, and
--     common/comrunner is run_session and safe_close.
--   Shared.Failure: common/comerr with `IsSameError` of common/comutils/error.go and
--     `wrapError` of api/middleware/wrap_error.go, over a heap, since a code and its values
--     share one error.
--   Shared.Restful: common/comrestful. `Request` is request, `RequestRaw` is request_raw,
--     `RequestV2` is request_v2 with the setters of Shared.Restful.Setters.
--   Glib.Media: glib/gmedia. Glib.Media.Minio, S3, Local and Google are the four storages,
--     each `UploadFile` an upload_file; Glib.Media.Clients is manager.go and config.go.
--   Glib.Auth, Middleware.Token: glib/gauth and api/middleware/verify_jwt_token.go. `IsValid`
--     is is_valid, `Token` is token_of, `VerifyToken` is verify_token.
--   Glib.Queue: glib/gmsgqueue. The operations of the consumers and producers carry the
--     broker in their name: kafka_fetch_message, jetstream_publish.
--   Shared.Cache: common/comcache, whose `Get` is get_value. Database.Paging, Database.Types:
--     `DbPaging` of database/sqlquery/paging.go is db_paging, and database/sqltype is how
--     columns are written and read.
--   Glib.Secret, Glib.Document: glib/gsec, and the cleaning of texts in
--     glib/gfile/manager.go.
--   Decimal is the interface of shopspring/decimal. Common holds names, tests and lemmas that
--     all modules use. Examples holds concrete decimals, a database in memory, a contract
--     toolkit, and runs on them.
--
-- How the parts interact: `Start` polls; `pollOnce` reads a page with fetch_payments and hands
-- each payment to `process`, which calls the matcher inside one transaction and, when that has
-- settled an order, writes the order to the chain with the contract client. The API makes the
-- orders, with the memo that the watcher looks orders up by, and reads the same rows. The
-- contract keeps the verdicts that the watcher writes and refuses what its own state machine
-- does not allow. The REST requests, the limiter, the consumer, the hub and the session are
-- libraries that the services are built with.
--
-- What is a parameter: the database (an unknown state with the statements that the program
-- makes and, as `Database.IsLawful`, their documented behaviour on the tables), the decimals
-- (`Decimal.IsLawful`), the network, the clock and new ids (functions of an unknown state), the
-- contract toolkit and server, the rate limiter of redis, the message brokers, redis, pgtype,
-- gorm's transactions, net/http, what its encoders write, GCM and base64, the regular
-- expressions, the SDKs of the storages, the file system, and the library for tokens. The
-- network archives the entries of the contract about 7 days after their last write:
-- Contract.Laws has calls that the host stops for that, and in Contract.Writes such a call
-- fails on the ledger. The database never meets a primary key that it has already, since these
-- are new ids. Errors are values: `none`, a sum, or a response with its status. Times that gorm
-- writes by itself are left out of the tables.
--
-- Bounds and fuel: the loops over rows and pages are recursion on the list. `invoke` waits at
-- most 30 rounds, as the source does. `Start` runs until its context is done, so start takes
-- the number of rounds to run. The recursion of `run` in common/comretry takes fuel. The loop
-- of the limiter takes as many turns as its timeout has units of time, and one more, since
-- every turn sleeps at least one unit. `Error`, `IsSameError`, `Stack` and `Data` follow a
-- chain of errors on fuel: one more than the chain is long is enough, and a cycle has no end.
-- The loop of the consumer has no end, so run_turns takes the number of turns. decimal_text has
-- 20 digits, which is enough for 64 bits.
--
-- Not modelled: start-up, routing and gin, generated documentation, configuration, the
-- connection to the database, and the web page; of common logging, the locks over redis, what
-- the encoders of forms write and the services over net/http, gRPC and cron; of glib all but
-- the ciphers, the tokens, the storages, the brokers and the cleaning of texts, which is mostly
-- calls of libraries. Logging, the panics of handlers and the lock of the hub are left out.
pub mod Common
pub mod Models
pub mod Decimal
pub mod Stellar
pub mod Soroban
pub mod Contract
pub mod Database
pub mod Glib
pub mod Watcher
pub mod System
pub mod Api
pub mod Report
pub mod Shared
pub mod Middleware
pub mod Examples
