-- ===== src/Kill.antt =====
-- kill/: the stop and restart actions behind their identity checks.
pub mod World
pub mod Identity
pub mod Legacy
pub mod Guarded
mod Tests
pub mod Advice
