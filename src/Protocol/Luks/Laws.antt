-- ===== src/Protocol/Luks/Laws.antt =====
-- `encode` and `decode` of the messages of phone-auth-protocol/src/luks.rs.
use bio_auth.Common.{ℕ, List}
use bio_auth.Common.Bytes.{AreBytes}
use bio_auth.Protocol.Luks
use bio_auth.Protocol.Payload.Laws.{IsExact, decoded_iff}
use bio_auth.Protocol.Luks.{
  validate_enroll_request, encode_enroll_request, validate_enroll_response, encode_enroll_response,
  validate_unlock_request, encode_unlock_request, validate_unlock_response, encode_unlock_response,
  validate_wrapped_key, encode_wrapped_key,
}
use bio_auth.Protocol.Luks.Decode.{
  read_enroll_request, decode_enroll_request, read_enroll_response, decode_enroll_response,
  read_unlock_request, decode_unlock_request, read_unlock_response, decode_unlock_response,
  read_wrapped_key, decode_wrapped_key,
}
use bio_auth.Protocol.Luks.EnrollRequestWire.{
  IsTypedEnrollRequest, enroll_request-Reads, enroll_request-takes,
}
use bio_auth.Protocol.Luks.EnrollResponseWire.{
  IsTypedEnrollResponse, enroll_response-Reads, enroll_response-takes,
}
use bio_auth.Protocol.Luks.UnlockRequestWire.{
  IsTypedUnlockRequest, unlock_request-Reads, unlock_request-takes,
}
use bio_auth.Protocol.Luks.UnlockResponseWire.{
  IsTypedUnlockResponse, unlock_response-Reads, unlock_response-takes,
}
use bio_auth.Protocol.Luks.WrappedVolumeKeyWire.{
  IsTypedWrappedVolumeKey, wrapped_key-Reads, wrapped_key-takes,
}

-- A payload decodes to one of the five messages about a disk's key exactly when the message is well typed
-- and valid, and the payload is its encoding and of a permitted size: what is read is what was written, and
-- nothing is written in two ways.
pub luks-decode_iff :
    (payload : List ℕ)
    → AreBytes payload
    → ((m : Luks.EnrollRequest)
        → IsExact decode_enroll_request validate_enroll_request encode_enroll_request
            IsTypedEnrollRequest payload m)
      × ((m : Luks.EnrollResponse)
          → IsExact decode_enroll_response validate_enroll_response encode_enroll_response
              IsTypedEnrollResponse payload m)
      × ((m : Luks.UnlockRequest)
          → IsExact decode_unlock_request validate_unlock_request encode_unlock_request
              IsTypedUnlockRequest payload m)
      × ((m : Luks.UnlockResponse)
          → IsExact decode_unlock_response validate_unlock_response encode_unlock_response
              IsTypedUnlockResponse payload m)
      × ((m : Luks.WrappedVolumeKey)
          → IsExact decode_wrapped_key validate_wrapped_key encode_wrapped_key
              IsTypedWrappedVolumeKey payload m)
unfolding decode_enroll_request decode_enroll_response decode_unlock_request decode_unlock_response
    decode_wrapped_key
luks-decode_iff payload clean = (
  λ m.
      decoded_iff read_enroll_request validate_enroll_request encode_enroll_request
        IsTypedEnrollRequest enroll_request-Reads enroll_request-takes payload m clean,
  λ m.
      decoded_iff read_enroll_response validate_enroll_response encode_enroll_response
        IsTypedEnrollResponse enroll_response-Reads enroll_response-takes payload m clean,
  λ m.
      decoded_iff read_unlock_request validate_unlock_request encode_unlock_request
        IsTypedUnlockRequest unlock_request-Reads unlock_request-takes payload m clean,
  λ m.
      decoded_iff read_unlock_response validate_unlock_response encode_unlock_response
        IsTypedUnlockResponse unlock_response-Reads unlock_response-takes payload m clean,
  λ m.
      decoded_iff read_wrapped_key validate_wrapped_key encode_wrapped_key IsTypedWrappedVolumeKey
        wrapped_key-Reads wrapped_key-takes payload m clean,
)
