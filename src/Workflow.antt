-- ===== src/Workflow.antt =====
-- src/app/services/anchor_workflow.py: the anchoring job.
pub mod Job
pub mod Storage
pub mod Anchoring
pub mod Frames
pub mod Body
pub mod Atomicity
pub mod Repeat
pub mod Refetch
