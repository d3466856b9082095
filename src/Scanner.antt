-- ===== src/Scanner.antt =====
-- apps/blockchain-monitor/src/scanner.ts: `ChainScanner`, which finds the transactions for the monitor.
pub mod Discovery
pub mod Tick
pub mod Coverage
pub mod Hashes
pub mod Tracked
pub mod Complete
