-- ===== src/Protocol/Enrolment.antt =====
-- phone-auth-protocol/src/enrolment.rs: the credential that a phone offers after pairing.
pub mod Decode
pub mod Laws
use bio_auth.Common.{
  ℕ, List, Bool, ◌||◌, is_empty, length, ltb, Result, ok, err, ◌>>=◌, ◌>>◌, refuse, not, ◌==◌, zero,
  suc,
}
use bio_auth.Common.Int.{ℤ, pos}
use bio_auth.Cbor.Writer.{new, ◌▹◌, array, uint, text, bytes}
use bio_auth.Protocol.Defs.{
  ProtocolError, Checked, protocol_version, unsupported_version, check_text, message_type_enrolment,
  invalid_key_kind, invalid_purpose, field_length,
}

abbrev pub enrolment_frame_len : ℕ
enrolment_frame_len = 9

pub data KeyKind : Type 0 where
  strong_box hardware software : KeyKind

abbrev pub key_kind_wire : KeyKind → ℕ
key_kind_wire strong_box = 0
key_kind_wire hardware = 1
key_kind_wire software = 2

unfoldable pub key_kind_from_wire : ℤ → Result ProtocolError KeyKind
key_kind_from_wire (pos zero) = ok strong_box
key_kind_from_wire (pos (suc zero)) = ok hardware
key_kind_from_wire (pos (suc (suc zero))) = ok software
key_kind_from_wire other = err (invalid_key_kind other)

pub data CredentialPurpose : Type 0 where
  authorization disk_unlock web_authn vault file_locker ssh : CredentialPurpose

abbrev pub purpose_wire : CredentialPurpose → ℕ
purpose_wire authorization = 0
purpose_wire disk_unlock = 1
purpose_wire web_authn = 2
purpose_wire vault = 3
purpose_wire file_locker = 4
purpose_wire ssh = 5

unfoldable pub purpose_from_wire : ℤ → Result ProtocolError CredentialPurpose
purpose_from_wire (pos zero) = ok authorization
purpose_from_wire (pos (suc zero)) = ok disk_unlock
purpose_from_wire (pos (suc (suc zero))) = ok web_authn
purpose_from_wire (pos (suc (suc (suc zero)))) = ok vault
purpose_from_wire (pos (suc (suc (suc (suc zero))))) = ok file_locker
purpose_from_wire (pos (suc (suc (suc (suc (suc zero)))))) = ok ssh
purpose_from_wire other = err (invalid_purpose other)

pub record Enrolment : Type 0 where
  pub version : ℕ
  pub device_name : List ℕ
  pub credential_id : List ℕ
  pub algorithm : List ℕ
  pub public_key : List ℕ
  pub key_kind : KeyKind
  pub purpose : CredentialPurpose

unfoldable pub validate : Enrolment → Checked
validate m = do
  refuse (not (m.version == protocol_version)) (unsupported_version m.version)
  check_text "deviceName" m.device_name 128
  check_text "credentialId" m.credential_id 64
  check_text "algorithm" m.algorithm 64
  refuse (is_empty m.public_key || ltb 512 (length m.public_key))
      (field_length "publicKey" 91 (length m.public_key))

unfoldable pub encode : Enrolment → List ℕ
encode m =
    (new
      ▹ array enrolment_frame_len
      ▹ uint message_type_enrolment
      ▹ uint m.version
      ▹ text m.device_name
      ▹ text m.credential_id
      ▹ text m.algorithm
      ▹ bytes m.public_key
      ▹ uint (key_kind_wire m.key_kind)
      ▹ uint (purpose_wire m.purpose)
      ▹ uint 0).buf
