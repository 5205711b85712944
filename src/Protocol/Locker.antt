-- ===== src/Protocol/Locker.antt =====
-- phone-auth-protocol/src/locker.rs: the wrapping of a locker's key.
pub mod Decode
pub mod WrapRequestWire
pub mod WrapResponseWire
pub mod UnwrapRequestWire
pub mod UnwrapResponseWire
pub mod Laws
use bio_auth.Common.{ℕ, List, not, ◌==◌, ◌||◌, ltb, length, is_empty, refuse, ◌>>◌, ◌>>=◌}
use bio_auth.Cbor.Writer.{new, ◌▹◌, array, uint, text, bytes}
use bio_auth.Protocol.Defs.{Checked, check_text, field_length, payload_size}

abbrev pub locker_schema : ℕ
locker_schema = 1

abbrev pub data_key_len : ℕ
data_key_len = 32

abbrev pub max_wrapper_bytes : ℕ
max_wrapper_bytes = 512

abbrev pub max_name_units : ℕ
max_name_units = 255

abbrev pub max_id_units : ℕ
max_id_units = 64

abbrev pub wrap_request_fields : ℕ
wrap_request_fields = 6

abbrev pub wrap_response_fields : ℕ
wrap_response_fields = 3

abbrev pub unwrap_request_fields : ℕ
unwrap_request_fields = 7

abbrev pub unwrap_response_fields : ℕ
unwrap_response_fields = 2

pub record WrapRequest : Type 0 where
  pub verifier_name : List ℕ
  pub file_name : List ℕ
  pub plaintext_len : ℕ
  pub container_binding : List ℕ
  pub data_key : List ℕ

pub record WrapResponse : Type 0 where
  pub credential_id : List ℕ
  pub wrapper : List ℕ

pub record UnwrapRequest : Type 0 where
  pub verifier_name : List ℕ
  pub file_name : List ℕ
  pub plaintext_len : ℕ
  pub container_binding : List ℕ
  pub credential_id : List ℕ
  pub wrapper : List ℕ

pub record UnwrapResponse : Type 0 where
  pub data_key : List ℕ

unfoldable pub check_data_key : List ℕ → Checked
check_data_key data_key =
    refuse (not (length data_key == data_key_len))
      (field_length "dataKey" data_key_len (length data_key))

unfoldable pub check_wrapper : List ℕ → Checked
check_wrapper wrapper =
    refuse (is_empty wrapper || ltb max_wrapper_bytes (length wrapper))
      (payload_size (length wrapper))

unfoldable pub validate_wrap_request : WrapRequest → Checked
validate_wrap_request m = do
  check_text "verifierName" m.verifier_name max_name_units
  check_text "fileName" m.file_name max_name_units
  check_data_key m.data_key

unfoldable pub encode_wrap_request : WrapRequest → List ℕ
encode_wrap_request m =
    (new
      ▹ array wrap_request_fields
      ▹ uint locker_schema
      ▹ text m.verifier_name
      ▹ text m.file_name
      ▹ uint m.plaintext_len
      ▹ bytes m.container_binding
      ▹ bytes m.data_key).buf

unfoldable pub validate_wrap_response : WrapResponse → Checked
validate_wrap_response m = do
  check_text "credentialId" m.credential_id max_id_units
  check_wrapper m.wrapper

unfoldable pub encode_wrap_response : WrapResponse → List ℕ
encode_wrap_response m =
    (new
      ▹ array wrap_response_fields
      ▹ uint locker_schema
      ▹ text m.credential_id
      ▹ bytes m.wrapper).buf

unfoldable pub validate_unwrap_request : UnwrapRequest → Checked
validate_unwrap_request m = do
  check_text "verifierName" m.verifier_name max_name_units
  check_text "fileName" m.file_name max_name_units
  check_text "credentialId" m.credential_id max_id_units
  check_wrapper m.wrapper

unfoldable pub encode_unwrap_request : UnwrapRequest → List ℕ
encode_unwrap_request m =
    (new
      ▹ array unwrap_request_fields
      ▹ uint locker_schema
      ▹ text m.verifier_name
      ▹ text m.file_name
      ▹ uint m.plaintext_len
      ▹ bytes m.container_binding
      ▹ text m.credential_id
      ▹ bytes m.wrapper).buf

unfoldable pub validate_unwrap_response : UnwrapResponse → Checked
validate_unwrap_response m = check_data_key m.data_key

unfoldable pub encode_unwrap_response : UnwrapResponse → List ℕ
encode_unwrap_response m =
    (new ▹ array unwrap_response_fields ▹ uint locker_schema ▹ bytes m.data_key).buf
