-- ===== src/Tests.antt =====
-- The properties at concrete inputs.
pub mod Toys
pub mod Tokens
pub mod Uhid
pub mod Pairing
pub mod Server
pub mod Webauthn
pub mod Phone
pub mod Pam
pub mod Session
pub mod Proximity
pub mod Answers
pub mod Serve
pub mod Probed
pub mod SelfTest
