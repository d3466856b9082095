-- ===== src/Ledger.antt =====
-- Double-entry bookkeeping: packages/ledger/src/ and the chart of accounts in
-- packages/database/src/ledger-accounts.ts.
pub mod Accounts
pub mod Store
pub mod Posting
pub mod Balances
pub mod Reconciliation
