-- ===== src/Worker.antt =====
-- apps/worker: the expiry of invoices.
pub mod ExpirySweep
pub mod Overdue
pub mod Sweep
