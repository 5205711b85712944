-- ===== src/Protocol/SshSign.antt =====
-- phone-auth-protocol/src/ssh.rs: the request to sign a login, and its answer.
pub mod Decode
pub mod SignRequestWire
pub mod SignResponseWire
pub mod Laws
use bio_auth.Common.{
  ℕ, List, not, ◌==◌, ◌||◌, ltb, length, is_empty, refuse, none, some, ◌>>◌, ◌>>=◌,
}
use bio_auth.Cbor.Writer.{new, ◌▹◌, array, uint, text, bytes}
use bio_auth.Protocol.Defs.{Checked, field_empty, field_too_long, field_length, payload_size}
use bio_auth.Text.{chars}

abbrev pub ssh_schema : ℕ
ssh_schema = 1

abbrev pub signature_len : ℕ
signature_len = 64

abbrev pub max_sign_data_bytes : ℕ
max_sign_data_bytes = 2048

abbrev pub sign_request_fields : ℕ
sign_request_fields = 4

abbrev pub sign_response_fields : ℕ
sign_response_fields = 2

pub record SignRequest : Type 0 where
  pub verifier_name : List ℕ
  pub destination : List ℕ
  pub signed_data : List ℕ

pub record SignResponse : Type 0 where
  pub signature : List ℕ

-- `chars().count()`.
unfoldable pub char_count : List ℕ → ℕ
char_count value = elim (chars value) [ none ↦ 0 | some cs ↦ length cs ]

unfoldable pub check_name : List ℕ → Checked
check_name value = do
  refuse (is_empty value) (field_empty "verifierName")
  refuse (ltb 64 (char_count value)) (field_too_long "verifierName" 64 (char_count value))

unfoldable pub validate_sign_request : SignRequest → Checked
validate_sign_request m = do
  check_name m.verifier_name
  refuse (ltb 128 (length m.destination)) (field_too_long "destination" 128 (length m.destination))
  refuse (is_empty m.signed_data || ltb max_sign_data_bytes (length m.signed_data))
      (payload_size (length m.signed_data))

unfoldable pub encode_sign_request : SignRequest → List ℕ
encode_sign_request m =
    (new
      ▹ array sign_request_fields
      ▹ uint ssh_schema
      ▹ text m.verifier_name
      ▹ text m.destination
      ▹ bytes m.signed_data).buf

unfoldable pub validate_sign_response : SignResponse → Checked
validate_sign_response m =
    refuse (not (length m.signature == signature_len))
      (field_length "signature" signature_len (length m.signature))

unfoldable pub encode_sign_response : SignResponse → List ℕ
encode_sign_response m =
    (new ▹ array sign_response_fields ▹ uint ssh_schema ▹ bytes m.signature).buf
