-- ===== src/Verifier/Session.antt =====
-- phone-auth-verifier/src/session.rs: what the verifier is told of the channel. The bytes are moved by
-- a transport, so `send`, `receive` and `close` are not part of the model.
use bio_auth.Common.{ℕ, List, Bool, ◌&&◌}

pub record TransportSecurity : Type 0 where
  pub transport_name : List ℕ
  pub confidential : Bool
  pub peer_authenticated : Bool
  pub requires_network : Bool
  pub proximity_signal : Bool
  pub is_development : Bool

unfoldable pub suitable_for_authorization : TransportSecurity → Bool
suitable_for_authorization s = s.confidential && s.peer_authenticated

pub record SecureSession : Type 0 where
  pub origin_label : List ℕ
  pub session_binding : List ℕ
  pub security : TransportSecurity
