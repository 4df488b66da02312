-- ===== src/Resolver.antt =====
-- Package resolver: the tenant catalogue.
pub mod Memory
pub mod Catalogue
pub mod Laws
pub mod Abstract
pub mod Lifetime
