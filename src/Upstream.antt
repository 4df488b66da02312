-- ===== src/Upstream.antt =====
-- upstream/conn.go: the connection to the tenant's cluster.
pub mod RoundTrip
pub mod Echo
pub mod Transparent
pub mod Link
pub mod Dial
pub mod Quiet
pub mod Ownership
pub mod Accepted
pub mod Transcript
pub mod Relayed
pub mod Rounds
pub mod Typed
