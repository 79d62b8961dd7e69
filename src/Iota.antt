-- ===== src/Iota.antt =====
-- src/app/services/iota_client.py: the connection to the IOTA node, submission and confirmation.
pub mod Client
pub mod Quiet
pub mod Errors
pub mod Confirmation
pub mod Conflicting
pub mod Inclusion
pub mod Message
pub mod Submission
