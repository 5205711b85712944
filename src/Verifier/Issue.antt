-- ===== src/Verifier/Issue.antt =====
-- `Verifier::issue` of phone-auth-verifier/src/verifier.rs. It changes nothing; the random bytes of
-- phone-auth-verifier/src/random.rs are arguments.
pub mod Sound
pub mod Window
use bio_auth.Common.{
  ℕ, List, Bool, true, false, not, Result, ok, err, ◌>>=◌, ◌>>◌, refuse, map_err, ◌==◌,
  if◌then◌else◌,
}
use bio_auth.Common.Int.{ℤ, pos, lebℤ, saturating_add}
use bio_auth.Encoding.{to_hex}
use bio_auth.Protocol.Defs.{protocol_version, max_validity_ms}
use bio_auth.Protocol.Request.{AuthRequest, validate}
use bio_auth.Verifier.Policy.{permits}
use bio_auth.Verifier.Pairing.{
  PairedCredential, CredentialPurpose, authorization, disk_unlock, web_authn, vault, file_locker,
  ssh, allowed_at_boot, for_service, find_credential,
}
use bio_auth.Verifier.Session.{SecureSession, TransportSecurity, suitable_for_authorization}
use bio_auth.Verifier.Signature.{ok_or}
use bio_auth.Verifier.State.{
  VerifierIdentity, RequestSpec, PendingAuthorization, AuthorizationError, channel_unsuitable,
  unknown_credential, purpose_mismatch, key_kind_unsuitable_for_boot, development_transport_refused,
  policy_denied, malformed, Verifier,
}

abbrev pub purpose_number : CredentialPurpose → ℕ
purpose_number authorization = 0
purpose_number disk_unlock = 1
purpose_number web_authn = 2
purpose_number vault = 3
purpose_number file_locker = 4
purpose_number ssh = 5

abbrev pub same_purpose : CredentialPurpose → CredentialPurpose → Bool
same_purpose p q = purpose_number p == purpose_number q

-- `random::request_id`: 16 random bytes in hexadecimal.
unfoldable pub request_id : List ℕ → List ℕ
unfolding to_hex
request_id random = to_hex random

-- `validity_ms.clamp(1, MAX_VALIDITY_MS)`.
unfoldable pub clamp_validity : ℤ → ℤ
clamp_validity v =
    if lebℤ v (pos 1)
    then pos 1
    else (if lebℤ (pos max_validity_ms) v then pos max_validity_ms else v)

-- What a disk unlock asks of the key and of the transport.
unfoldable pub check_boot :
    List ℕ
    → PairedCredential
    → TransportSecurity
    → CredentialPurpose
    → Result AuthorizationError (Unit {0})
unfolding allowed_at_boot
check_boot credential_id credential security purpose =
    if same_purpose purpose disk_unlock
    then (do
      refuse (not (allowed_at_boot credential.key_kind))
          (key_kind_unsuitable_for_boot credential_id)
      refuse security.is_development (development_transport_refused security.transport_name))
    else ok tt

unfoldable pub build_request :
    VerifierIdentity → RequestSpec → SecureSession → ℤ → List ℕ → List ℕ → AuthRequest
unfolding request_id clamp_validity
build_request identity spec session now_ms random_id challenge = record {
  version = protocol_version;
  request_id = request_id random_id;
  verifier_id = identity.verifier_id;
  verifier_name = identity.verifier_name;
  credential_id = spec.credential_id;
  challenge = challenge;
  service = spec.service;
  action = spec.action;
  resource = spec.resource;
  user = spec.user;
  issued_at_ms = now_ms;
  expires_at_ms = saturating_add now_ms (clamp_validity spec.validity_ms);
  session_binding = session.session_binding;
}

unfoldable pub issue :
    Verifier
    → RequestSpec
    → SecureSession
    → ℤ
    → List ℕ
    → List ℕ
    → Result AuthorizationError PendingAuthorization
issue v spec session now_ms random_id challenge = do
  refuse (not (suitable_for_authorization session.security))
      (channel_unsuitable session.security.transport_name)
  (device, credential) ←
      ok_or (find_credential v.store spec.credential_id) (unknown_credential spec.credential_id)
  let purpose = for_service spec.service
  refuse (not (same_purpose credential.purpose purpose))
      (purpose_mismatch spec.credential_id credential.purpose purpose)
  check_boot spec.credential_id credential session.security purpose
  let request = build_request v.identity spec session now_ms random_id challenge
  map_err malformed (validate request)
  refuse (not (permits credential.permissions request)) policy_denied
  ok (record {
    request = request;
    origin = session.origin_label;
    session_binding = session.session_binding;
  })
