-- ===== src/Proxy.antt =====
-- proxy/: the connection of one client, and the listener that accepts connections.
pub mod Counts
pub mod Conn
pub mod Handlers
pub mod Sasl
pub mod Dispatch
pub mod Invariant
pub mod Outgoing
pub mod Safety
pub mod Forwarding
pub mod Stable
pub mod Run
pub mod Labels
mod Early
pub mod Serve
pub mod Loop
pub mod Tally
pub mod Counted
pub mod Idle
pub mod Dials
pub mod Provenance
pub mod Revoked
pub mod Stream
pub mod Listener
pub mod Backoff
pub mod Server
pub mod Advertised
pub mod Passthrough
pub mod Credentials
pub mod Relay
pub mod Debug
