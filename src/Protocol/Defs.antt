-- ===== src/Protocol/Defs.antt =====
-- phone-auth-protocol/src/lib.rs: limits, errors and the checks that the messages share.
use bio_auth.Common.{
  none, some, err, not, ℕ, Bool, true, not, ◌&&◌, ◌||◌, List, ◌∷◌, String, Result, err, ◌>>◌,
  refuse, ltb, ◌==◌, is_empty, length,
}
use bio_auth.Common.Int.{ℤ, pos, lebℤ, checked_sub}
use bio_auth.Text.{is_blank, utf16_len}
use bio_auth.Cbor.Reader.{CborError}

abbrev pub protocol_version : ℕ
protocol_version = 1

abbrev pub max_frame_bytes : ℕ
max_frame_bytes = 8192

abbrev pub challenge_len : ℕ
challenge_len = 32

abbrev pub session_binding_len : ℕ
session_binding_len = 32

abbrev pub max_validity_ms : ℕ
max_validity_ms = 120_000

abbrev pub message_type_request : ℕ
message_type_request = 1

abbrev pub message_type_response : ℕ
message_type_response = 2

abbrev pub message_type_enrolment : ℕ
message_type_enrolment = 3

abbrev pub message_type_application : ℕ
message_type_application = 4

abbrev pub message_type_attach : ℕ
message_type_attach = 5

pub data ProtocolError : Type 0 where
  cbor : CborError → ProtocolError
  frame_size : ℕ → ProtocolError
  frame_shape : ℕ → ℕ → ProtocolError
  unsupported_version unexpected_message_type : ℕ → ProtocolError
  field_empty : String → ProtocolError
  field_too_long field_length : String → ℕ → ℕ → ProtocolError
  validity_window not_canonical : ProtocolError
  invalid_decision : ℤ → ProtocolError
  missing_proof : ProtocolError
  invalid_key_kind invalid_purpose : ℤ → ProtocolError
  invalid_application_kind invalid_application_error : ℕ → ProtocolError
  invalid_operation : ProtocolError
  payload_size invalid_item_kind : ℕ → ProtocolError
  invalid_revision : ProtocolError
  invalid_reserved_field : ℕ → ProtocolError
  unexpected_end : ProtocolError
  invalid_text : String → ProtocolError

abbrev pub Checked : Type 0
Checked = Result ProtocolError (Unit {0})

unfoldable pub check_text : String → List ℕ → ℕ → Checked
check_text field value max = do
  refuse (is_blank value) (field_empty field)
  let actual = utf16_len value
  refuse (ltb max actual) (field_too_long field max actual)

unfoldable pub check_frame_size : List ℕ → Checked
check_frame_size frame =
    refuse (is_empty frame || ltb max_frame_bytes (length frame)) (frame_size (length frame))

-- `left.iter().zip(right).all(|(a, b)| a == b)`.
unfoldable pub zip_equal : List ℕ → List ℕ → Bool
zip_equal (a ∷ left) (b ∷ right) = a == b && zip_equal left right
zip_equal _ _ = true

unfoldable pub bytes_equal : List ℕ → List ℕ → Bool
unfolding zip_equal
bytes_equal left right = length left == length right && zip_equal left right

-- `expires.checked_sub(issued)`, and a window of at least a millisecond and at most two minutes.
unfoldable pub check_window : ℤ → ℤ → Checked
check_window issued expires = elim (checked_sub expires issued) [
  | none ↦ err validity_window
  | some window ↦
      refuse (lebℤ window (pos 0) || not (lebℤ window (pos max_validity_ms))) validity_window
]
