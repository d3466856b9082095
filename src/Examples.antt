-- ===== src/Examples.antt =====
-- Concrete invoices, postings and calls at which the theorems apply.
pub mod Samples
mod MonitorRuns
mod Postings
mod Rules
mod Services
mod Requests
