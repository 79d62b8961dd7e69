-- ===== src/Tests.antt =====
-- Concrete inputs, on which each theorem is applied.
pub mod Fixture
pub mod Trees
pub mod Runs
pub mod Stores
pub mod Application
pub mod Gates
pub mod Listing
