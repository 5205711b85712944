-- ===== src/Protocol/Locker/Laws.antt =====
-- `encode` and `decode` of the messages of phone-auth-protocol/src/locker.rs.
use bio_auth.Common.{ℕ, List}
use bio_auth.Common.Bytes.{AreBytes}
use bio_auth.Protocol.Locker
use bio_auth.Protocol.Payload.Laws.{IsExact, decoded_iff}
use bio_auth.Protocol.Locker.{
  validate_wrap_request, encode_wrap_request, validate_wrap_response, encode_wrap_response,
  validate_unwrap_request, encode_unwrap_request, validate_unwrap_response, encode_unwrap_response,
}
use bio_auth.Protocol.Locker.Decode.{
  read_wrap_request, decode_wrap_request, read_wrap_response, decode_wrap_response,
  read_unwrap_request, decode_unwrap_request, read_unwrap_response, decode_unwrap_response,
}
use bio_auth.Protocol.Locker.WrapRequestWire.{
  IsTypedWrapRequest, wrap_request-Reads, wrap_request-takes,
}
use bio_auth.Protocol.Locker.WrapResponseWire.{
  IsTypedWrapResponse, wrap_response-Reads, wrap_response-takes,
}
use bio_auth.Protocol.Locker.UnwrapRequestWire.{
  IsTypedUnwrapRequest, unwrap_request-Reads, unwrap_request-takes,
}
use bio_auth.Protocol.Locker.UnwrapResponseWire.{
  IsTypedUnwrapResponse, unwrap_response-Reads, unwrap_response-takes,
}

-- A payload decodes to one of the four messages about a locker's key exactly when the message is well typed
-- and valid, and the payload is its encoding and of a permitted size.
pub locker-decode_iff :
    (payload : List ℕ)
    → AreBytes payload
    → ((m : Locker.WrapRequest)
        → IsExact decode_wrap_request validate_wrap_request encode_wrap_request IsTypedWrapRequest
            payload m)
      × ((m : Locker.WrapResponse)
          → IsExact decode_wrap_response validate_wrap_response encode_wrap_response
              IsTypedWrapResponse payload m)
      × ((m : Locker.UnwrapRequest)
          → IsExact decode_unwrap_request validate_unwrap_request encode_unwrap_request
              IsTypedUnwrapRequest payload m)
      × ((m : Locker.UnwrapResponse)
          → IsExact decode_unwrap_response validate_unwrap_response encode_unwrap_response
              IsTypedUnwrapResponse payload m)
unfolding decode_wrap_request decode_wrap_response decode_unwrap_request decode_unwrap_response
locker-decode_iff payload clean = (
  λ m.
      decoded_iff read_wrap_request validate_wrap_request encode_wrap_request IsTypedWrapRequest
        wrap_request-Reads wrap_request-takes payload m clean,
  λ m.
      decoded_iff read_wrap_response validate_wrap_response encode_wrap_response IsTypedWrapResponse
        wrap_response-Reads wrap_response-takes payload m clean,
  λ m.
      decoded_iff read_unwrap_request validate_unwrap_request encode_unwrap_request
        IsTypedUnwrapRequest unwrap_request-Reads unwrap_request-takes payload m clean,
  λ m.
      decoded_iff read_unwrap_response validate_unwrap_response encode_unwrap_response
        IsTypedUnwrapResponse unwrap_response-Reads unwrap_response-takes payload m clean,
)
