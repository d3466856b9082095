-- ===== src/Lib.antt =====
-- A verification of the payment core of the gateway: money, the life of an invoice, the double-entry
-- ledger, the blockchain monitor that drives them with its scanner, the delivery of webhooks and the
-- signing policy.
--
-- How the parts work together. The monitor (apps/blockchain-monitor) reads transfers from a chain
-- adapter, matches them to invoices, follows their confirmations, evaluates the amount and moves the
-- invoice. Every move passes the gate of the state machine (packages/payments). A settled payment is
-- posted to the ledger (packages/ledger) once per transfer, and amounts are whole smallest units
-- throughout (packages/shared). The scanner walks the chain and hands the monitor its transactions;
-- the dispatcher (packages/webhooks) delivers the events that the handlers write; the signing service
-- (packages/signing) stands alone in front of its backend.
--
-- The files.
--   Prelude        shared names; Int, lists with native lengths, `Result` for what throws, `Tx` for a
--                  database transaction that a throw rolls back, `Effect` for effects that a throw
--                  leaves, and the rules for their loops
--   Assets         packages/shared/src/domain/asset.ts and apps/blockchain-monitor/src/asset-resolver.ts:
--                  the allowlist (`asset_list`), findAsset, findAssetByContract, findNativeAsset,
--                  listAssets, resolveTransferAsset
--   Money          packages/shared/src/money: Decimal for decimal.ts (divFloor, divCeil, divHalfUp,
--                  divide, rescaleUnits), Text for its parseUnits and formatUnits, Amount for the
--                  class Money of money.ts, ExchangeRate for exchange-rate.ts; Rounding, Natural,
--                  Pricing and the modules of Text hold lemmas and theorems
--   Invoice        Status for packages/shared/src/domain/invoice-status.ts; StateMachine and its Table
--                  for packages/payments/src/state-machine.ts (findRule, canTransition,
--                  isActorAllowed, assertTransition, webhookEventForStatus)
--   Payments       packages/payments/src: Evaluation for payment-evaluation.ts, Confirmations for
--                  confirmations.ts, Matcher for matcher.ts
--   Ledger         Accounts for packages/database/src/ledger-accounts.ts; Posting, Balances and
--                  Reconciliation for the files of those names in packages/ledger/src, over the tables
--                  of Store
--   Monitor        apps/blockchain-monitor/src/monitor.service.ts, over the tables of Store: Chain
--                  (recordChainTransaction), TransferRows and Detection (processTransaction,
--                  recordTransfer), Settlement (updateConfirmations, finalizeInvoice), Reorg
--                  (handleReorg) and Records (recordEvent, emitWebhook); Follows, Same, Rules, Quiet,
--                  Advances and History are the proof rules, Runs, Reconcile, Idempotent, Rescan,
--                  LedgerKept and Blocked the theorems
--   Scanner        apps/blockchain-monitor/src/scanner.ts: Discovery for the blocks of a range, Tick for
--                  the cursor and the calls of the monitor, which is an interface; Coverage, Hashes,
--                  Tracked and Complete hold the theorems
--   Signing        packages/signing/src: Policy for the types and in-memory stores, Service for
--                  PolicyEnforcingSigningService; Authorised, Safety and Runs hold the theorems
--   Webhooks       packages/webhooks/src: Retry for retry-policy.ts, Outbox for the tables, Dispatcher
--                  and Poll for dispatcher.ts (attemptDelivery, finalizeFailure; runOnce and its
--                  phases); Rows, Keys, Rooms, Unique, Budget, RetryLaws,
--                  RetryOrder and Requeued hold the theorems
--   Worker         apps/worker/src/expiry-sweep.ts: ExpirySweep for the sweep; Overdue and Sweep hold the
--                  theorems
--   Api            apps/api/src/invoices/invoices.service.ts: InvoiceCommands for loadAndMaybeExpire and
--                  cancelInvoice; CancelRace for their interleaving. Idempotency is `execute` of
--                  common/idempotency.service.ts, on any handler; FirstCall and Replay are its laws
--   Examples       concrete invoices, postings and runs at which the theorems apply
--
-- Conventions. A function that throws returns `Result`; a function on a transaction client is a `Tx`,
-- a function from the tables to a result and the new tables. A table is the list of its rows in the
-- order of their inserts, with the columns that the code uses; ids are numbers from a counter. A loop
-- whose rounds are transactions of their own keeps the rounds before the one that throws. Loops are
-- structural recursion on lists, but for two on fuel: the scan of a range has the batch size for fuel,
-- which its heights do not exceed, and the digits of a number have its successor. `bigint` is an
-- integer without bound; an amount column is NUMERIC(78,0), and overflow of it is not modelled. The
-- floats of a retry delay, its jitter ratio and its draw, are exact fractions. A call has one `now` in
-- milliseconds.
--
-- Parameters. The chain adapter's answers (transactions, transfers, confirmations) are arguments, and
-- so is the percentage of confirmationProgress, a quotient of floats; so are the signing backend, the
-- answers of webhook endpoints, the check of their addresses, the decryption of their secrets, the
-- draws of `Math.random`, the hash of a request's body, what a JSON column gives back of one, and
-- whether the delete that releases an idempotency key succeeds.
--
-- Not modelled. Metrics and logs, which nothing reads back; the generic path of the scanner, for
-- adapters without the cheap reads; a second dispatcher at work on the same rows, or a second
-- call under an idempotency key between the lookup and the claim; failures of the database other than
-- that of the delete that releases a key; the exchange-rate providers; the rest of the API, the process
-- set-up of the worker, and the web front end; hashing and encryption, which are library calls.
pub mod Prelude
pub mod Assets
pub mod Money
pub mod Invoice
pub mod Payments
pub mod Ledger
pub mod Monitor
pub mod Scanner
pub mod Signing
pub mod Webhooks
pub mod Worker
pub mod Api
pub mod Examples
