-- ===== src/Verifier/Accept.antt =====
-- `Verifier::accept` of phone-auth-verifier/src/verifier.rs: whether an answer grants a request.
pub mod Sound
pub mod Once
pub mod Honest
pub mod EndToEnd
use bio_auth.Common.{
  ℕ, List, Bool, true, false, not, Result, ok, err, ◌>>=◌, ◌>>◌, refuse, map_err, ◌==◌, text_eq,
}
use bio_auth.Common.Int.{ℤ}
use bio_auth.Protocol.Request.{AuthRequest, is_expired_at, signing_payload}
use bio_auth.Protocol.Response.{AuthResponse, is_authorized}
use bio_auth.Protocol.Response.Decode.{decode}
use bio_auth.Verifier.Policy.{permits}
use bio_auth.Verifier.Pairing.{PairingStore, find_credential}
use bio_auth.Verifier.Replay.{consume}
use bio_auth.Verifier.Session.{SecureSession, suitable_for_authorization}
use bio_auth.Verifier.Signature.{P256, verify_authorization, ok_or}
use bio_auth.Verifier.State.{
  PendingAuthorization, Grant, AuthorizationError, channel_unsuitable, unknown_credential,
  policy_denied, response_mismatch, session_binding_mismatch, declined, expired, replayed, protocol,
  signature, Verifier,
}

-- What is checked before the request id is used up.
unfoldable pub match_response :
    PendingAuthorization → List ℕ → SecureSession → Result AuthorizationError AuthResponse
match_response pending response_frame session = do
  refuse (not (suitable_for_authorization session.security))
      (channel_unsuitable session.security.transport_name)
  refuse (not (text_eq session.session_binding pending.session_binding)) session_binding_mismatch
  let request = pending.request
  response ← map_err protocol (decode response_frame)
  refuse (not (text_eq response.request_id request.request_id)) (response_mismatch "requestId")
  refuse (not (text_eq response.verifier_id request.verifier_id)) (response_mismatch "verifierId")
  refuse (not (text_eq response.credential_id request.credential_id))
      (response_mismatch "credentialId")
  refuse (not (response.version == request.version)) (response_mismatch "protocolVersion")
  ok response

-- What is checked after it.
unfoldable pub decide :
    P256 → PairingStore → PendingAuthorization → AuthResponse → ℤ → Result AuthorizationError Grant
decide lib store pending response now_ms = do
  let request = pending.request
  refuse (is_expired_at request now_ms) expired
  refuse (not (is_authorized response.decision)) declined
  (device, credential) ←
      ok_or (find_credential store request.credential_id) (unknown_credential request.credential_id)
  refuse (not (permits credential.permissions request)) policy_denied
  map_err signature (
      verify_authorization lib credential.algorithm credential.public_key response.algorithm
        (signing_payload request) response.signature)
  ok (record {
    request_id = request.request_id;
    device_id = device.device_id;
    device_name = device.display_name;
    credential_id = request.credential_id;
    service = request.service;
    action = request.action;
    resource = request.resource;
    user = request.user;
    origin = pending.origin;
    granted_at_ms = now_ms;
  })

-- The request id is used up before the proof is looked at, whatever comes of it.
unfoldable pub accept :
    P256
    → Verifier
    → PendingAuthorization
    → List ℕ
    → SecureSession
    → ℤ
    → Verifier × Result AuthorizationError Grant
accept lib v pending response_frame session now_ms =
    elim (match_response pending response_frame session) [
      | err e ↦ (v, err e)
      | ok response ↦
          let (replay, first) = consume v.replay pending.request.request_id in
          (
            record v { replay = replay },
            elim first [ true ↦ decide lib v.store pending response now_ms | false ↦ err replayed ],
          )
    ]
