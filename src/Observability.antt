-- ===== src/Observability.antt =====
-- Package observability.
pub mod Logging
