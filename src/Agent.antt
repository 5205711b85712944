-- ===== src/Agent.antt =====
-- The parts of phone-auth-agent/src that decide or encode something by themselves.
pub mod IdMap
pub mod SshAgent
pub mod SshPolicy
pub mod BleFraming
pub mod Examples
