-- ===== src/System.antt =====
-- src/app/main.py and src/app/db/session.py: start and stop of the service, its scheduled jobs and its
-- probes.
pub mod Session
pub mod Jobs
pub mod Startup
pub mod Probes
pub mod Keeping
pub mod Integrity
pub mod Retrying
pub mod Reconciling
pub mod Reach
pub mod Transaction
pub mod Lifecycle
pub mod Probing
