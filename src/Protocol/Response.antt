-- ===== src/Protocol/Response.antt =====
-- phone-auth-protocol/src/response.rs: the phone's answer, and its proof.
pub mod Decode
pub mod Laws
use bio_auth.Common.{
  ℕ, List, Bool, true, false, ◌&&◌, ◌||◌, is_empty, Result, ok, err, ◌>>=◌, ◌>>◌, refuse, not, ◌==◌,
  zero, suc,
}
use bio_auth.Common.Int.{ℤ, pos}
use bio_auth.Cbor.Writer.{new, ◌▹◌, array, uint, text, bytes}
use bio_auth.Protocol.Defs.{
  ProtocolError, Checked, protocol_version, unsupported_version, check_text, message_type_response,
  missing_proof, invalid_decision,
}

abbrev pub response_frame_len : ℕ
response_frame_len = 8

pub data Decision : Type 0 where
  authorized denied : Decision

-- `decision as u64`.
abbrev pub decision_wire : Decision → ℕ
decision_wire authorized = 0
decision_wire denied = 1

unfoldable pub decision_from_wire : ℤ → Result ProtocolError Decision
decision_from_wire (pos zero) = ok authorized
decision_from_wire (pos (suc zero)) = ok denied
decision_from_wire other = err (invalid_decision other)

abbrev pub is_authorized : Decision → Bool
is_authorized authorized = true
is_authorized denied = false

pub record AuthResponse : Type 0 where
  pub version : ℕ
  pub request_id : List ℕ
  pub verifier_id : List ℕ
  pub credential_id : List ℕ
  pub decision : Decision
  pub algorithm : List ℕ
  pub signature : List ℕ

unfoldable pub validate : AuthResponse → Checked
validate m = do
  refuse (not (m.version == protocol_version)) (unsupported_version m.version)
  check_text "requestId" m.request_id 64
  check_text "verifierId" m.verifier_id 64
  check_text "credentialId" m.credential_id 64
  refuse (is_authorized m.decision && (is_empty m.algorithm || is_empty m.signature)) missing_proof

unfoldable pub encode : AuthResponse → List ℕ
encode m =
    (new
      ▹ array response_frame_len
      ▹ uint message_type_response
      ▹ uint m.version
      ▹ text m.request_id
      ▹ text m.verifier_id
      ▹ text m.credential_id
      ▹ uint (decision_wire m.decision)
      ▹ text m.algorithm
      ▹ bytes m.signature).buf
