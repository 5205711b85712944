-- ===== src/Protocol/Vault/Laws.antt =====
-- `encode` and `decode` of the messages of phone-auth-protocol/src/vault.rs.
use bio_auth.Protocol.Vault
use bio_auth.Protocol.Vault.Page
