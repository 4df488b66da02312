-- ===== src/Examples.antt =====
-- Runs of the program on concrete inputs, to which the theorems apply.
mod Blobs
mod Rewriting
mod Wire
mod Logins
mod Connections
mod Exchanges
mod Upstreams
mod Configs
mod Admins
mod Streams
mod Credentials
mod Counts
mod Servers
mod Revocations
mod Relays
mod Passing
