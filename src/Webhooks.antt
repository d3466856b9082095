-- ===== src/Webhooks.antt =====
-- packages/webhooks: the delivery of webhook events, and its retries.
pub mod Retry
pub mod Outbox
pub mod Dispatcher
pub mod Poll
pub mod Rows
pub mod Keys
pub mod Rooms
pub mod Unique
pub mod Budget
pub mod RetryLaws
pub mod RetryOrder
pub mod Requeued
