-- ===== src/Protocol/Luks/Decode.antt =====
-- The decoders of phone-auth-protocol/src/luks.rs.
use bio_auth.Common.{ℕ, List, Result}
use bio_auth.Cbor.Reader
use bio_auth.Protocol.Defs.{ProtocolError}
use bio_auth.Protocol.Parser.{Parser, ◌>>=◌, ◌>>◌, pure, item, fixed_bytes}
use bio_auth.Protocol.Payload.{opening, decode_payload}
use bio_auth.Protocol.Luks.{
  luks_schema, volume_binding_len, EnrollRequest, enroll_request_fields, validate_enroll_request,
  encode_enroll_request, EnrollResponse, enroll_response_fields, validate_enroll_response,
  encode_enroll_response, UnlockRequest, unlock_request_fields, validate_unlock_request,
  encode_unlock_request, UnlockResponse, unlock_response_fields, validate_unlock_response,
  encode_unlock_response, WrappedVolumeKey, wrapped_key_fields, validate_wrapped_key,
  encode_wrapped_key,
}

unfoldable pub read_enroll_request : Parser EnrollRequest
read_enroll_request = do
  opening luks_schema enroll_request_fields
  verifier_name ← item Reader.text
  volume_name ← item Reader.text
  volume_binding ← fixed_bytes "volumeBinding" volume_binding_len
  disk_key ← item Reader.bytes
  pure (record {
    verifier_name = verifier_name;
    volume_name = volume_name;
    volume_binding = volume_binding;
    disk_key = disk_key;
  })

unfoldable pub decode_enroll_request : List ℕ → Result ProtocolError EnrollRequest
decode_enroll_request payload =
    decode_payload read_enroll_request validate_enroll_request encode_enroll_request payload

unfoldable pub read_enroll_response : Parser EnrollResponse
read_enroll_response = do
  opening luks_schema enroll_response_fields
  credential_id ← item Reader.text
  wrapper ← item Reader.bytes
  pure (record { credential_id = credential_id; wrapper = wrapper })

unfoldable pub decode_enroll_response : List ℕ → Result ProtocolError EnrollResponse
decode_enroll_response payload =
    decode_payload read_enroll_response validate_enroll_response encode_enroll_response payload

unfoldable pub read_unlock_request : Parser UnlockRequest
read_unlock_request = do
  opening luks_schema unlock_request_fields
  verifier_name ← item Reader.text
  volume_name ← item Reader.text
  volume_binding ← fixed_bytes "volumeBinding" volume_binding_len
  credential_id ← item Reader.text
  wrapper ← item Reader.bytes
  pure (record {
    verifier_name = verifier_name;
    volume_name = volume_name;
    volume_binding = volume_binding;
    credential_id = credential_id;
    wrapper = wrapper;
  })

unfoldable pub decode_unlock_request : List ℕ → Result ProtocolError UnlockRequest
decode_unlock_request payload =
    decode_payload read_unlock_request validate_unlock_request encode_unlock_request payload

unfoldable pub read_unlock_response : Parser UnlockResponse
read_unlock_response = do
  opening luks_schema unlock_response_fields
  disk_key ← item Reader.bytes
  pure (record { disk_key = disk_key })

unfoldable pub decode_unlock_response : List ℕ → Result ProtocolError UnlockResponse
decode_unlock_response payload =
    decode_payload read_unlock_response validate_unlock_response encode_unlock_response payload

unfoldable pub read_wrapped_key : Parser WrappedVolumeKey
read_wrapped_key = do
  opening luks_schema wrapped_key_fields
  volume_binding ← fixed_bytes "volumeBinding" volume_binding_len
  credential_id ← item Reader.text
  wrapper ← item Reader.bytes
  pure
      (record { volume_binding = volume_binding; credential_id = credential_id; wrapper = wrapper })

unfoldable pub decode_wrapped_key : List ℕ → Result ProtocolError WrappedVolumeKey
decode_wrapped_key payload =
    decode_payload read_wrapped_key validate_wrapped_key encode_wrapped_key payload
