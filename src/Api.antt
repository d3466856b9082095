-- ===== src/Api.antt =====
-- apps/api: the commands on an invoice.
pub mod InvoiceCommands
pub mod CancelRace
pub mod Idempotency
pub mod FirstCall
pub mod Replay
