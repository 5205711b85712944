-- ===== src/Protocol/Luks.antt =====
-- phone-auth-protocol/src/luks.rs: the wrapping of a disk's key, and what is kept of it.
pub mod Decode
pub mod EnrollRequestWire
pub mod EnrollResponseWire
pub mod UnlockRequestWire
pub mod UnlockResponseWire
pub mod WrappedVolumeKeyWire
pub mod Laws
use bio_auth.Common.{ℕ, List, not, ◌==◌, ◌||◌, ltb, length, is_empty, refuse, ◌>>◌, ◌>>=◌}
use bio_auth.Cbor.Writer.{new, ◌▹◌, array, uint, text, bytes}
use bio_auth.Protocol.Defs.{Checked, check_text, field_length, payload_size}

abbrev pub luks_schema : ℕ
luks_schema = 1

abbrev pub disk_key_len : ℕ
disk_key_len = 32

abbrev pub volume_binding_len : ℕ
volume_binding_len = 32

abbrev pub max_wrapper_bytes : ℕ
max_wrapper_bytes = 512

abbrev pub max_name_units : ℕ
max_name_units = 255

abbrev pub max_id_units : ℕ
max_id_units = 64

abbrev pub enroll_request_fields : ℕ
enroll_request_fields = 5

abbrev pub enroll_response_fields : ℕ
enroll_response_fields = 3

abbrev pub unlock_request_fields : ℕ
unlock_request_fields = 6

abbrev pub unlock_response_fields : ℕ
unlock_response_fields = 2

abbrev pub wrapped_key_fields : ℕ
wrapped_key_fields = 4

pub record EnrollRequest : Type 0 where
  pub verifier_name : List ℕ
  pub volume_name : List ℕ
  pub volume_binding : List ℕ
  pub disk_key : List ℕ

pub record EnrollResponse : Type 0 where
  pub credential_id : List ℕ
  pub wrapper : List ℕ

pub record UnlockRequest : Type 0 where
  pub verifier_name : List ℕ
  pub volume_name : List ℕ
  pub volume_binding : List ℕ
  pub credential_id : List ℕ
  pub wrapper : List ℕ

pub record UnlockResponse : Type 0 where
  pub disk_key : List ℕ

pub record WrappedVolumeKey : Type 0 where
  pub volume_binding : List ℕ
  pub credential_id : List ℕ
  pub wrapper : List ℕ

unfoldable pub names : List ℕ → List ℕ → Checked
names verifier volume = do
  check_text "verifierName" verifier max_name_units
  check_text "volumeName" volume max_name_units

unfoldable pub key : List ℕ → Checked
key value =
    refuse (not (length value == disk_key_len)) (field_length "diskKey" disk_key_len (length value))

unfoldable pub check_wrapper : List ℕ → Checked
check_wrapper wrapper =
    refuse (is_empty wrapper || ltb max_wrapper_bytes (length wrapper))
      (payload_size (length wrapper))

unfoldable pub validate_enroll_request : EnrollRequest → Checked
validate_enroll_request m = do names m.verifier_name m.volume_name; key m.disk_key

unfoldable pub encode_enroll_request : EnrollRequest → List ℕ
encode_enroll_request m =
    (new
      ▹ array enroll_request_fields
      ▹ uint luks_schema
      ▹ text m.verifier_name
      ▹ text m.volume_name
      ▹ bytes m.volume_binding
      ▹ bytes m.disk_key).buf

unfoldable pub validate_enroll_response : EnrollResponse → Checked
validate_enroll_response m = do
  check_text "credentialId" m.credential_id max_id_units
  check_wrapper m.wrapper

unfoldable pub encode_enroll_response : EnrollResponse → List ℕ
encode_enroll_response m =
    (new
      ▹ array enroll_response_fields
      ▹ uint luks_schema
      ▹ text m.credential_id
      ▹ bytes m.wrapper).buf

unfoldable pub validate_unlock_request : UnlockRequest → Checked
validate_unlock_request m = do
  names m.verifier_name m.volume_name
  check_text "credentialId" m.credential_id max_id_units
  check_wrapper m.wrapper

unfoldable pub encode_unlock_request : UnlockRequest → List ℕ
encode_unlock_request m =
    (new
      ▹ array unlock_request_fields
      ▹ uint luks_schema
      ▹ text m.verifier_name
      ▹ text m.volume_name
      ▹ bytes m.volume_binding
      ▹ text m.credential_id
      ▹ bytes m.wrapper).buf

unfoldable pub validate_unlock_response : UnlockResponse → Checked
validate_unlock_response m = key m.disk_key

unfoldable pub encode_unlock_response : UnlockResponse → List ℕ
encode_unlock_response m =
    (new ▹ array unlock_response_fields ▹ uint luks_schema ▹ bytes m.disk_key).buf

unfoldable pub validate_wrapped_key : WrappedVolumeKey → Checked
validate_wrapped_key m = do
  check_text "credentialId" m.credential_id max_id_units
  check_wrapper m.wrapper

unfoldable pub encode_wrapped_key : WrappedVolumeKey → List ℕ
encode_wrapped_key m =
    (new
      ▹ array wrapped_key_fields
      ▹ uint luks_schema
      ▹ bytes m.volume_binding
      ▹ text m.credential_id
      ▹ bytes m.wrapper).buf
