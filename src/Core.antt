-- ===== src/Core.antt =====
-- src/app/core: the settings and the middleware that checks API keys.
pub mod Config
pub mod Auth
pub mod Guarded
