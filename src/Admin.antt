-- ===== src/Admin.antt =====
-- The admin API, admin/: the JSON-RPC service over the tenant resolver and its client.
pub mod Types
pub mod Service
pub mod Client
pub mod Exchange
pub mod Refinement
