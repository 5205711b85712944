-- ===== src/Protocol/Application/ErrorCode.antt =====
-- `ApplicationErrorCode` of phone-auth-protocol/src/application.rs: the payload of an error frame.
pub mod Laws
use bio_auth.Common.{
  ℕ, zero, suc, List, Result, ok, err, ◌==◌, not, refuse, map_err, ◌>>=◌ as then_result,
}
use bio_auth.Cbor.Writer.{new as new_writer, ◌▹◌, array, uint}
use bio_auth.Cbor.Reader
use bio_auth.Protocol.Defs.{
  ProtocolError, cbor, frame_shape, unsupported_version, invalid_application_error, not_canonical,
  protocol_version, bytes_equal,
}
use bio_auth.Protocol.Parser.{Parser, ◌>>=◌, ◌>>◌, pure, item, check, coded}

abbrev pub application_error_len : ℕ
application_error_len = 2

pub data ApplicationErrorCode : Type 0 where
  rejected invalid_request unavailable : ApplicationErrorCode

abbrev pub error_wire : ApplicationErrorCode → ℕ
error_wire rejected = 0
error_wire invalid_request = 1
error_wire unavailable = 2

unfoldable pub error_from_wire : ℕ → Result ProtocolError ApplicationErrorCode
error_from_wire zero = ok rejected
error_from_wire (suc zero) = ok invalid_request
error_from_wire (suc (suc zero)) = ok unavailable
error_from_wire value = err (invalid_application_error value)

unfoldable pub encode_error : ApplicationErrorCode → List ℕ
encode_error c =
    (new_writer ▹ array application_error_len ▹ uint protocol_version ▹ uint (error_wire c)).buf

unfoldable pub error_fields : Parser ApplicationErrorCode
error_fields = do
  len ← item Reader.array
  check (refuse (not (len == application_error_len)) (frame_shape application_error_len len))
  version ← item Reader.uint
  check (refuse (not (version == protocol_version)) (unsupported_version version))
  coded Reader.uint error_from_wire

unfoldable pub decode_error : List ℕ → Result ProtocolError ApplicationErrorCode
decode_error payload = then_result (error_fields (Reader.new payload)) λ x.
    then_result (map_err cbor (Reader.finish x.1)) λ _.
      then_result (refuse (not (bytes_equal payload (encode_error x.0))) not_canonical) λ _. ok x.0
