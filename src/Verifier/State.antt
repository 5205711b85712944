-- ===== src/Verifier/State.antt =====
-- phone-auth-verifier/src/verifier.rs: the verifier's state, what it is asked and what it answers.
use bio_auth.Common.{ℕ, List, String}
use bio_auth.Common.Int.{ℤ, pos}
use bio_auth.Protocol.Defs.{ProtocolError}
use bio_auth.Protocol.Request.{AuthRequest, encode}
use bio_auth.Verifier.Pairing.{PairingStore, CredentialPurpose}
use bio_auth.Verifier.Replay.{ReplayGuard, default}
use bio_auth.Verifier.Signature.{SignatureError}

pub record VerifierIdentity : Type 0 where
  pub verifier_id : List ℕ
  pub verifier_name : List ℕ

pub record RequestSpec : Type 0 where
  pub credential_id : List ℕ
  pub service : List ℕ
  pub action : List ℕ
  pub resource : List ℕ
  pub user : List ℕ
  pub validity_ms : ℤ

unfoldable pub new_spec : List ℕ → List ℕ → List ℕ → List ℕ → List ℕ → RequestSpec
new_spec credential_id service action resource user = record {
  credential_id = credential_id;
  service = service;
  action = action;
  resource = resource;
  user = user;
  validity_ms = pos 60_000;
}

pub record PendingAuthorization : Type 0 where
  pub request : AuthRequest
  pub origin : List ℕ
  pub session_binding : List ℕ

unfoldable pub frame : PendingAuthorization → List ℕ
frame p = encode p.request

pub record Grant : Type 0 where
  pub request_id : List ℕ
  pub device_id : List ℕ
  pub device_name : List ℕ
  pub credential_id : List ℕ
  pub service : List ℕ
  pub action : List ℕ
  pub resource : List ℕ
  pub user : List ℕ
  pub origin : List ℕ
  pub granted_at_ms : ℤ

pub data AuthorizationError : Type 0 where
  channel_unsuitable unknown_credential : List ℕ → AuthorizationError
  purpose_mismatch : List ℕ → CredentialPurpose → CredentialPurpose → AuthorizationError
  key_kind_unsuitable_for_boot development_transport_refused : List ℕ → AuthorizationError
  policy_denied : AuthorizationError
  response_mismatch : String → AuthorizationError
  session_binding_mismatch declined expired replayed : AuthorizationError
  protocol : ProtocolError → AuthorizationError
  signature : SignatureError → AuthorizationError
  malformed : ProtocolError → AuthorizationError

pub record Verifier : Type 0 where
  pub identity : VerifierIdentity
  pub store : PairingStore
  pub replay : ReplayGuard

unfoldable pub new : VerifierIdentity → PairingStore → Verifier
unfolding default
new identity store = record { identity = identity; store = store; replay = default }
