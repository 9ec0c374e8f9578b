-- ===== src/Config.antt =====
-- The plugin arguments: apis/config.
pub mod Defaults
pub mod Validation
pub mod Accepted
