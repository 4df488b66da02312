-- ===== src/Command.antt =====
-- cmd/kroxy: the process, and the HTTP servers that it starts beside the proxy.
pub mod Http
pub mod Run
