-- ===== src/Reconciliation.antt =====
-- src/app/services/reconciliation.py: retries and confirmation of stored anchors.
pub mod Retry
pub mod Run
pub mod Counters
pub mod Failures
pub mod Backoff
