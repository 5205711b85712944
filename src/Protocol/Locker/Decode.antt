-- ===== src/Protocol/Locker/Decode.antt =====
-- The decoders of phone-auth-protocol/src/locker.rs.
use bio_auth.Common.{ℕ, List, Result}
use bio_auth.Cbor.Reader
use bio_auth.Protocol.Defs.{ProtocolError, session_binding_len}
use bio_auth.Protocol.Parser.{Parser, ◌>>=◌, ◌>>◌, pure, item, fixed_bytes}
use bio_auth.Protocol.Payload.{opening, decode_payload}
use bio_auth.Protocol.Locker.{
  locker_schema, WrapRequest, wrap_request_fields, validate_wrap_request, encode_wrap_request,
  WrapResponse, wrap_response_fields, validate_wrap_response, encode_wrap_response, UnwrapRequest,
  unwrap_request_fields, validate_unwrap_request, encode_unwrap_request, UnwrapResponse,
  unwrap_response_fields, validate_unwrap_response, encode_unwrap_response,
}

unfoldable pub read_wrap_request : Parser WrapRequest
read_wrap_request = do
  opening locker_schema wrap_request_fields
  verifier_name ← item Reader.text
  file_name ← item Reader.text
  plaintext_len ← item Reader.uint
  container_binding ← fixed_bytes "containerBinding" session_binding_len
  data_key ← item Reader.bytes
  pure (record {
    verifier_name = verifier_name;
    file_name = file_name;
    plaintext_len = plaintext_len;
    container_binding = container_binding;
    data_key = data_key;
  })

unfoldable pub decode_wrap_request : List ℕ → Result ProtocolError WrapRequest
decode_wrap_request payload =
    decode_payload read_wrap_request validate_wrap_request encode_wrap_request payload

unfoldable pub read_wrap_response : Parser WrapResponse
read_wrap_response = do
  opening locker_schema wrap_response_fields
  credential_id ← item Reader.text
  wrapper ← item Reader.bytes
  pure (record { credential_id = credential_id; wrapper = wrapper })

unfoldable pub decode_wrap_response : List ℕ → Result ProtocolError WrapResponse
decode_wrap_response payload =
    decode_payload read_wrap_response validate_wrap_response encode_wrap_response payload

unfoldable pub read_unwrap_request : Parser UnwrapRequest
read_unwrap_request = do
  opening locker_schema unwrap_request_fields
  verifier_name ← item Reader.text
  file_name ← item Reader.text
  plaintext_len ← item Reader.uint
  container_binding ← fixed_bytes "containerBinding" session_binding_len
  credential_id ← item Reader.text
  wrapper ← item Reader.bytes
  pure (record {
    verifier_name = verifier_name;
    file_name = file_name;
    plaintext_len = plaintext_len;
    container_binding = container_binding;
    credential_id = credential_id;
    wrapper = wrapper;
  })

unfoldable pub decode_unwrap_request : List ℕ → Result ProtocolError UnwrapRequest
decode_unwrap_request payload =
    decode_payload read_unwrap_request validate_unwrap_request encode_unwrap_request payload

unfoldable pub read_unwrap_response : Parser UnwrapResponse
read_unwrap_response = do
  opening locker_schema unwrap_response_fields
  data_key ← item Reader.bytes
  pure (record { data_key = data_key })

unfoldable pub decode_unwrap_response : List ℕ → Result ProtocolError UnwrapResponse
decode_unwrap_response payload =
    decode_payload read_unwrap_response validate_unwrap_response encode_unwrap_response payload
