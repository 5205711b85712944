-- ===== src/Protocol/SshSign/Decode.antt =====
-- The decoders of phone-auth-protocol/src/ssh.rs.
use bio_auth.Common.{ℕ, List, Result}
use bio_auth.Cbor.Reader
use bio_auth.Protocol.Defs.{ProtocolError}
use bio_auth.Protocol.Parser.{Parser, ◌>>=◌, ◌>>◌, pure, item}
use bio_auth.Protocol.Payload.{opening, decode_payload}
use bio_auth.Protocol.SshSign.{
  ssh_schema, SignRequest, sign_request_fields, validate_sign_request, encode_sign_request,
  SignResponse, sign_response_fields, validate_sign_response, encode_sign_response,
}

unfoldable pub read_sign_request : Parser SignRequest
read_sign_request = do
  opening ssh_schema sign_request_fields
  verifier_name ← item Reader.text
  destination ← item Reader.text
  signed_data ← item Reader.bytes
  pure (record {
    verifier_name = verifier_name;
    destination = destination;
    signed_data = signed_data;
  })

unfoldable pub decode_sign_request : List ℕ → Result ProtocolError SignRequest
decode_sign_request payload =
    decode_payload read_sign_request validate_sign_request encode_sign_request payload

unfoldable pub read_sign_response : Parser SignResponse
read_sign_response = do
  opening ssh_schema sign_response_fields
  signature ← item Reader.bytes
  pure (record { signature = signature })

unfoldable pub decode_sign_response : List ℕ → Result ProtocolError SignResponse
decode_sign_response payload =
    decode_payload read_sign_response validate_sign_response encode_sign_response payload
