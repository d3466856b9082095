-- ===== src/Invoice.antt =====
-- The life of an invoice: packages/shared/src/domain/invoice-status.ts and
-- packages/payments/src/state-machine.ts.
pub mod Status
pub mod StateMachine
