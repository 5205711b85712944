-- ===== src/Protocol/Application.antt =====
-- phone-auth-protocol/src/application.rs: the envelope of the vault, locker and other operations.
pub mod Decode
pub mod Laws
mod Operation
pub mod ErrorCode
unfoldable pub use Operation.{valid_operation, strip_prefix, has_dots, operation_byte}
use Operation.{valid_operation}
use bio_auth.Common.{
  ℕ, ◌*◌, List, Bool, true, false, ◌&&◌, not, length, ltb, Result, ok, err, ◌>>=◌, ◌>>◌, refuse,
  ◌==◌, zero, suc, text_eq,
}
use bio_auth.Common.Int.{ℤ, lebℤ, eqℤ}
use bio_auth.Cbor.Writer.{new, ◌▹◌, array, uint, int, text, bytes}
use bio_auth.Protocol.Defs.{
  ProtocolError, Checked, protocol_version, unsupported_version, check_text, check_window,
  message_type_application, invalid_application_kind, invalid_operation, payload_size,
}

abbrev pub application_frame_len : ℕ
application_frame_len = 9

abbrev pub max_application_payload_bytes : ℕ
max_application_payload_bytes = 6 * 1024

pub data ApplicationFrameKind : Type 0 where
  request response cancel error : ApplicationFrameKind

abbrev pub wire : ApplicationFrameKind → ℕ
wire request = 0
wire response = 1
wire cancel = 2
wire error = 3

unfoldable pub kind_from_wire : ℕ → Result ProtocolError ApplicationFrameKind
kind_from_wire zero = ok request
kind_from_wire (suc zero) = ok response
kind_from_wire (suc (suc zero)) = ok cancel
kind_from_wire (suc (suc (suc zero))) = ok error
kind_from_wire value = err (invalid_application_kind value)

abbrev pub is_request : ApplicationFrameKind → Bool
is_request request = true
is_request _ = false

abbrev pub is_answer : ApplicationFrameKind → Bool
is_answer response = true
is_answer error = true
is_answer _ = false

pub record ApplicationFrame : Type 0 where
  pub version : ℕ
  pub kind : ApplicationFrameKind
  pub request_id : List ℕ
  pub session_binding : List ℕ
  pub operation : List ℕ
  pub issued_at_ms : ℤ
  pub expires_at_ms : ℤ
  pub payload : List ℕ

unfoldable pub validate : ApplicationFrame → Checked
validate m = do
  refuse (not (m.version == protocol_version)) (unsupported_version m.version)
  check_text "requestId" m.request_id 64
  refuse (not (valid_operation m.operation)) invalid_operation
  refuse (ltb max_application_payload_bytes (length m.payload)) (payload_size (length m.payload))
  check_window m.issued_at_ms m.expires_at_ms

unfoldable pub is_expired_at : ApplicationFrame → ℤ → Bool
is_expired_at m now_ms = lebℤ m.expires_at_ms now_ms

unfoldable pub is_reply_to : ApplicationFrame → ApplicationFrame → ℤ → Bool
unfolding is_expired_at
is_reply_to m asked now_ms =
    is_request asked.kind
    && is_answer m.kind
    && text_eq m.request_id asked.request_id
    && text_eq m.session_binding asked.session_binding
    && text_eq m.operation asked.operation
    && eqℤ m.issued_at_ms asked.issued_at_ms
    && eqℤ m.expires_at_ms asked.expires_at_ms
    && not (is_expired_at m now_ms)

unfoldable pub encode : ApplicationFrame → List ℕ
encode m =
    (new
      ▹ array application_frame_len
      ▹ uint message_type_application
      ▹ uint m.version
      ▹ uint (wire m.kind)
      ▹ text m.request_id
      ▹ bytes m.session_binding
      ▹ text m.operation
      ▹ int m.issued_at_ms
      ▹ int m.expires_at_ms
      ▹ bytes m.payload).buf
