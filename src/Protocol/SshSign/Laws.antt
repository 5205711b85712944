-- ===== src/Protocol/SshSign/Laws.antt =====
-- `encode` and `decode` of the messages of phone-auth-protocol/src/ssh.rs.
use bio_auth.Common.{ℕ, List}
use bio_auth.Common.Bytes.{AreBytes}
use bio_auth.Protocol.SshSign
use bio_auth.Protocol.Payload.Laws.{IsExact, decoded_iff}
use bio_auth.Protocol.SshSign.{
  validate_sign_request, encode_sign_request, validate_sign_response, encode_sign_response,
}
use bio_auth.Protocol.SshSign.Decode.{
  read_sign_request, decode_sign_request, read_sign_response, decode_sign_response,
}
use bio_auth.Protocol.SshSign.SignRequestWire.{
  IsTypedSignRequest, sign_request-Reads, sign_request-takes,
}
use bio_auth.Protocol.SshSign.SignResponseWire.{
  IsTypedSignResponse, sign_response-Reads, sign_response-takes,
}

-- A payload decodes to a request to sign a login, or to its answer, exactly when that is well typed and
-- valid, and the payload is its encoding and of a permitted size.
pub ssh_sign-decode_iff :
    (payload : List ℕ)
    → AreBytes payload
    → ((m : SshSign.SignRequest)
        → IsExact decode_sign_request validate_sign_request encode_sign_request IsTypedSignRequest
            payload m)
      × ((m : SshSign.SignResponse)
          → IsExact decode_sign_response validate_sign_response encode_sign_response
              IsTypedSignResponse payload m)
unfolding decode_sign_request decode_sign_response
ssh_sign-decode_iff payload clean = (
  λ m.
      decoded_iff read_sign_request validate_sign_request encode_sign_request IsTypedSignRequest
        sign_request-Reads sign_request-takes payload m clean,
  λ m.
      decoded_iff read_sign_response validate_sign_response encode_sign_response IsTypedSignResponse
        sign_response-Reads sign_response-takes payload m clean,
)
