-- ===== src/Config.antt =====
-- server/internal/config: the configuration file's tables, their checks, and the load.
pub mod Presets
pub mod Satellite
pub mod Chat
pub mod Load
