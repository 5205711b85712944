-- ===== src/Protocol/Attach.antt =====
-- phone-auth-protocol/src/attach.rs: the credential that a phone opened a session with.
pub mod Decode
pub mod Laws
pub mod Recognition
use bio_auth.Common.{ℕ, List, ok, ◌>>=◌, ◌>>◌, refuse, not, ◌==◌}
use bio_auth.Cbor.Writer.{new, ◌▹◌, array, uint, text}
use bio_auth.Protocol.Defs.{
  Checked, protocol_version, unsupported_version, check_text, message_type_attach,
}

abbrev pub attach_frame_len : ℕ
attach_frame_len = 4

pub record SessionAttach : Type 0 where
  pub version : ℕ
  pub credential_id : List ℕ

unfoldable pub new_attach : List ℕ → SessionAttach
new_attach credential_id = record { version = protocol_version; credential_id = credential_id }

unfoldable pub validate : SessionAttach → Checked
validate m = do
  refuse (not (m.version == protocol_version)) (unsupported_version m.version)
  check_text "credentialId" m.credential_id 64

unfoldable pub encode : SessionAttach → List ℕ
encode m =
    (new
      ▹ array attach_frame_len
      ▹ uint message_type_attach
      ▹ uint m.version
      ▹ text m.credential_id
      ▹ uint 0).buf
