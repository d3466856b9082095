-- ===== src/Payments.antt =====
-- The decisions of packages/payments/src/: what a received amount means for an invoice, how many
-- confirmations it has, and what to do with a transfer.
pub mod Errors
pub mod Evaluation
pub mod Confirmations
pub mod Matcher
