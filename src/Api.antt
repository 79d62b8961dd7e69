-- ===== src/Api.antt =====
-- src/app/api/v1/endpoints/anchors.py: the endpoints.
pub mod Answer
pub mod Responses
pub mod Verify
pub mod Queries
pub mod Acceptance
pub mod Paging
