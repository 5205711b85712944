-- ===== src/Verifier.antt =====
-- The desktop's side: phone-auth-verifier/src.
pub mod TextMap
pub mod Replay
pub mod Policy
pub mod Pairing
pub mod Session
pub mod Signature
pub mod State
pub mod Issue
pub mod Accept
pub mod Examples
