-- ===== src/Repository.antt =====
-- src/app/db/repository.py: the tables `anchors` and `anchor_items` (their schema is in
-- src/app/db/session.py and alembic/versions). Anchors and Items are the methods.
pub mod Anchors
pub mod Items
pub mod Saved
pub mod Updated
pub mod Rows
pub mod Reading
pub mod Refinement
pub mod Integrity
pub mod Statuses
