-- ===== src/Config.antt =====
-- internal/config: the configuration, its file and the reload.
pub mod Types
pub mod Settings
pub mod Reload
mod Tests
