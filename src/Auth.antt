-- ===== src/Auth.antt =====
-- Package auth: the payloads of the SASL mechanisms.
pub mod Plain
pub mod PlainPayload
pub mod PlainUser
pub mod Scram
pub mod SaslName
pub mod ClientFirst
