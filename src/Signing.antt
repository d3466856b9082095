-- ===== src/Signing.antt =====
-- packages/signing: the policy in front of a signing backend.
pub mod Policy
pub mod Service
pub mod Authorised
pub mod Safety
pub mod Runs
