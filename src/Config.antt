-- ===== src/Config.antt =====
-- internal/config: the settings and their validation.
pub mod Relay
pub mod Agent
