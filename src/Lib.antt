-- ===== src/Lib.antt =====
-- Selatpay, a settlement service: a customer pays USDC on Solana, the merchant is paid rupiah.
--
-- The parts, and how they work together. A merchant asks the API (internal/api) for an intent. The
-- quoter (internal/quoter) prices its rupiah amount in USDC, signs the quote and stores it. The
-- payer's wallet gets the price in a Solana Pay URL (internal/solanapay). A watcher
-- (internal/chain) parses the token transfers on the chain, matches each to an intent by the
-- reference key in its transaction, and stores it as a deposit. When a deposit is final, a saga
-- (internal/saga) settles the intent in four steps (internal/saga/steps): the deposit is credited
-- in the ledger (internal/ledger), the rupiah are sent over a payout rail (internal/payout), the
-- payout is booked, and an event is put in the outbox (internal/outbox). A bank for development
-- (cmd/mockidrbank) answers the rail. A runner claims one saga at a time under a lease, runs its
-- step in one transaction with the saga's progress, and on an error fails the saga or puts it back
-- with a backoff. A dispatcher drains the outbox, and its sender posts each event, signed, to the
-- merchant's webhook (internal/webhook). A walker (internal/recon) compares the hot wallet's
-- balance on the chain with the ledger's. Requests to the API pass two middlewares: one
-- authenticates them by a signature (internal/auth), and one answers a repeated key from a store
-- (internal/idempotency).
--
-- Which file models what:
--   Prelude         numbers, int64, texts as lists of bytes, decimals, lines of a text (Lines),
--                   searches and updates of rows, tables with a key (Keys), selections in an order
--                   (Rows)
--   Db.Tables       the rows of internal/db/sqlc/models.go
--   Db.Tx           errors, the tables, and a transaction as a state monad; in Db.Chain what a
--                   chain of steps that succeeds says of each
--   Ledger.Validate `Validate` of internal/ledger/validate.go
--   Ledger.Posting  internal/ledger/ledger.go (`Post`, `PostTx`, `BalanceOf`, `ListPostings`) and the
--                   triggers of internal/db/migrations/0001_core_ledger.sql
--   Payout          internal/payout: the router and the rail of rails/mock_idr_bank.go
--   Outbox.Publish  `Publish` of internal/outbox/publisher.go
--   Outbox.Dispatcher internal/outbox/dispatcher.go (`drainOnce`, `computeBackoff`, `NewDispatcher`) and
--                   the queries of internal/db/sqlc/outbox.sql.go
--   Chain.Parser    internal/chain/spl_parser.go, and Chain.References its `ReferencesIn` with
--                   `matchReference` of internal/chain/watcher.go
--   Chain.Deposits  the queries that the watcher runs, of internal/db/sqlc
--   Chain.Watcher   `ProcessSignature` of internal/chain/watcher.go; in Chain.Watcher.Loops
--                   `RefreshReferences`, `PromoteUnfinalized` and `PollReferences`
--   Auth            internal/auth: the middleware of hmac.go and the key store of pgstore.go
--   Webhook.Header  `parseSignatureHeader` and its helpers, of internal/webhook/sign.go
--   Webhook.Sign    `Sign` and `Verify` of internal/webhook/sign.go
--   Webhook.Sender  `Send` of internal/webhook/sender.go
--   Idempotency.Store internal/idempotency/store.go and store_pg.go
--   Idempotency.CachedStore internal/idempotency/store_cache.go
--   Idempotency.Middleware internal/idempotency/middleware.go
--   SolanaPay.Amount `FormatAmount` and `ParseAmount` of internal/solanapay/url.go
--   SolanaPay.Url   `BuildURL` and `ParseURL` of internal/solanapay/url.go
--   Quoter          `QuoteAmount` of internal/quoter/quoter.go
--   Quoter.Issue    `New`, `Issue`, `Verify` and `signQuote` of internal/quoter/quoter.go
--   Api.View        `intentToAPI`, `buildPayURL` and `formatRate` of internal/api/handlers.go
--   Api.Handlers    `CreatePaymentIntent` and `GetPaymentIntent` of internal/api/handlers.go
--   Bank            the handler of payouts of cmd/mockidrbank/main.go
--   Recon           the walker of internal/recon/walker.go
--   Saga.Backoff    internal/saga/backoff.go
--   Saga.Claim      the registry of internal/saga/types.go, and `claim` of internal/saga/runner.go
--   Saga.Runner     `executeStep`, `failRun`, `scheduleRetry` and `Tick` of internal/saga/runner.go
--   Saga.Steps      the `Execute` methods of internal/saga/steps and the queries that they run
--   Tests           concrete inputs
--
-- How state is modelled. A table is the list of its rows in the order of insertion, the world is
-- the tables with the clock, the next UUID and the requests sent to a rail, and a transaction is a
-- function from a world to a result and a world. A rollback restores the tables and nothing else:
-- an id that was handed out stays spent, and a request that was sent stays sent. UUIDs are handed
-- out in order, which stands for their never repeating. The balance trigger is run at commit over
-- every posting, where the database runs it over the postings of the transaction.
--
-- Bounds. An int64 is an integer with its wrap-around written out; a uint64 a number below 2^64. No
-- definition runs on fuel: the loops of the source run over a list or a counter.
--
-- What is a parameter: the HTTP exchange, JSON in both directions, the text of a UUID and the
-- reading of one, `rand.Int64N`, the Solana node, base58, net/url, the provider of rates, the key
-- pair of a new reference, the address of an associated token account, the token program's address,
-- HMAC-SHA256, the hash of a request body, `time.Parse`, the text of a duration, and the check of a
-- URL. Calls of the database and of Redis that may fail for reasons of their own are flags in the
-- runner, the watcher, the dispatcher, the walker, the handlers, the key store and the stores of
-- answers. In the ledger and in the steps of a saga a query fails only for what its statement says
-- (no row, a constraint), and no flag stands for its failing otherwise.
--
-- What is not modelled: the making of API keys, the dashboard, the making and sealing of reference
-- keys, QR codes, the routes of the HTTP servers, the loops that run a tick at every beat of a
-- timer, the dispatcher's advisory lock, the node's WebSocket subscription, foreign keys, the CHECK
-- of payouts that an amount is positive (a payment intent's amount has the same CHECK), and set-up
-- code. Timestamps that no modelled operation reads and the texts of wrapped errors are left out.
-- Rows that other transactions hold locked are seen by a claim alone, which skips them.
pub mod Prelude
pub mod Db
pub mod Ledger
pub mod Payout
pub mod Outbox
pub mod SolanaPay
pub mod Quoter
pub mod Saga
pub mod Chain
pub mod Webhook
pub mod Idempotency
pub mod Auth
pub mod Api
pub mod Bank
pub mod Recon
pub mod Tests
