-- ===== src/Config.antt =====
-- internal/config/config.go: the settings the process reads from its environment.
pub mod Load
pub mod Validity
