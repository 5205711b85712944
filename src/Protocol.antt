-- ===== src/Protocol.antt =====
-- The wire format: phone-auth-protocol/src.
pub mod Defs
pub mod Parser
pub mod Codec
pub mod Items
pub mod Bounds
pub mod Examples
pub mod Request
pub mod Response
pub mod Enrolment
pub mod Attach
pub mod Application
pub mod Payload
pub mod Permissions
pub mod Luks
pub mod Locker
pub mod SshSign
pub mod Vault
pub mod Ssh
