-- ===== src/Rewrite.antt =====
-- Package rewrite: names as the tenant's clients write them, and as the shared cluster holds them.
pub mod Compact
pub mod Names
pub mod RoundTrip
pub mod Isolation
pub mod Kmsg
pub mod ProduceFetch
pub mod Metadata
pub mod Brokers
pub mod TopicsAdmin
pub mod Groups
pub mod Members
pub mod Transactions
pub mod Message
