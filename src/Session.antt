-- ===== src/Session.antt =====
-- The encrypted session of phone-auth-session/src, as far as it is modelled: the record layer behind
-- the handshake, and the frames that carry records over a stream.
pub mod Channel
pub mod Framing
pub mod Crypto
pub mod Keys
pub mod Bootstrap
pub mod Handshake
pub mod Examples
