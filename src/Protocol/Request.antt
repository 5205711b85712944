-- ===== src/Protocol/Request.antt =====
-- phone-auth-protocol/src/request.rs: the request that a phone shows and signs.
pub mod Decode
pub mod Laws
pub mod Bounds
use bio_auth.Common.{ℕ, List, [], ◌∷◌, ◌++◌, Bool, Result, ok, err, ◌>>=◌, ◌>>◌, refuse, not, ◌==◌}
use bio_auth.Common.Int.{ℤ, lebℤ}
use bio_auth.Cbor.Writer.{Writer, new, ◌▹◌, array, uint, int, text, bytes}
use bio_auth.Protocol.Defs.{
  Checked, protocol_version, unsupported_version, check_text, check_window, message_type_request,
}

abbrev pub request_frame_len : ℕ
request_frame_len = 14

pub record AuthRequest : Type 0 where
  pub version : ℕ
  pub request_id : List ℕ
  pub verifier_id : List ℕ
  pub verifier_name : List ℕ
  pub credential_id : List ℕ
  pub challenge : List ℕ
  pub service : List ℕ
  pub action : List ℕ
  pub resource : List ℕ
  pub user : List ℕ
  pub issued_at_ms : ℤ
  pub expires_at_ms : ℤ
  pub session_binding : List ℕ

unfoldable pub validate : AuthRequest → Checked
validate m = do
  refuse (not (m.version == protocol_version)) (unsupported_version m.version)
  check_text "requestId" m.request_id 64
  check_text "verifierId" m.verifier_id 64
  check_text "verifierName" m.verifier_name 128
  check_text "credentialId" m.credential_id 64
  check_text "service" m.service 64
  check_text "action" m.action 128
  check_text "resource" m.resource 256
  check_text "user" m.user 128
  check_window m.issued_at_ms m.expires_at_ms

unfoldable pub is_expired_at : AuthRequest → ℤ → Bool
is_expired_at m now_ms = lebℤ m.expires_at_ms now_ms

join : List (List ℕ) → List ℕ
join [] = []
join (part ∷ []) = part
join (part ∷ next ∷ parts) = part ++ 0 ∷ join (next ∷ parts)

unfoldable pub fingerprint : AuthRequest → List ℕ
unfolding join
fingerprint m =
    join (m.verifier_id ∷ m.credential_id ∷ m.service ∷ m.action ∷ m.resource ∷ m.user ∷ [])

unfoldable pub encode : AuthRequest → List ℕ
encode m =
    (new
      ▹ array request_frame_len
      ▹ uint message_type_request
      ▹ uint m.version
      ▹ text m.request_id
      ▹ text m.verifier_id
      ▹ text m.verifier_name
      ▹ text m.credential_id
      ▹ bytes m.challenge
      ▹ text m.service
      ▹ text m.action
      ▹ text m.resource
      ▹ text m.user
      ▹ int m.issued_at_ms
      ▹ int m.expires_at_ms
      ▹ bytes m.session_binding).buf

-- The payload that a phone signs.
unfoldable pub signing_payload : AuthRequest → List ℕ
signing_payload m = encode m
