-- ===== src/Uhid.antt =====
-- daemon/crates/kpk-spike/src/uhid.rs: the virtual FIDO authenticator.
pub mod Consts
pub mod Buffer
pub mod Events
pub mod Frame
pub mod Run
pub mod Report
pub mod Framing
pub mod Credentials
