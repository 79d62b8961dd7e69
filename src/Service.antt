-- ===== src/Service.antt =====
-- src/app/services/anchor_service.py: `AnchorService`.
pub mod Anchors
pub mod Pending
pub mod Creation
pub mod Posting
