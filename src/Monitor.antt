-- ===== src/Monitor.antt =====
-- apps/blockchain-monitor/src/monitor.service.ts: the payment-detection pipeline. Metrics are not
-- modelled: they are counters that nothing reads back.
pub mod Store
pub mod Records
pub mod Chain
pub mod TransferRows
pub mod Detection
pub mod Settlement
pub mod Reorg
pub mod Same
pub mod Follows
pub mod Rules
pub mod Quiet
pub mod Advances
pub mod History
pub mod Runs
pub mod Reconcile
pub mod Idempotent
pub mod Rescan
pub mod LedgerKept
pub mod Blocked
