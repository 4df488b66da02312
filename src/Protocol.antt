-- ===== src/Protocol.antt =====
-- Package protocol: API keys, length-prefixed frames, request and response headers.
pub mod Keys
pub mod Words
pub mod Framing
pub mod Frames
pub mod Header
pub mod Response
