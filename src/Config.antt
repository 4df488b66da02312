-- ===== src/Config.antt =====
-- config/: the configuration file, and what cmd/kroxy makes of it.
pub mod Settings
pub mod Load
pub mod Valid
pub mod Startup
