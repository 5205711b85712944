-- ===== src/Cbor.antt =====
-- Canonical CBOR: phone-auth-protocol/src/cbor.rs.
pub mod Writer
pub mod Reader
pub mod Position
pub mod Items
pub mod RoundTrip
pub mod StrictHead
pub mod Strict
pub mod Canonical
