-- ===== src/Protocol/Attach/Decode.antt =====
-- `SessionAttach::decode` of phone-auth-protocol/src/attach.rs.
use bio_auth.Common.{List, ℕ, Result}
use bio_auth.Cbor.Reader
use bio_auth.Protocol.Defs.{ProtocolError, message_type_attach}
use bio_auth.Protocol.Parser.{Parser, ◌>>=◌, ◌>>◌, pure, item, header, reserved}
use bio_auth.Protocol.Codec.{decode_with}
use bio_auth.Protocol.Attach.{SessionAttach, attach_frame_len, validate, encode}

unfoldable pub fields : Parser SessionAttach
fields = do
  header attach_frame_len message_type_attach
  version ← item Reader.uint
  credential_id ← item Reader.text
  reserved
  pure (record { version = version; credential_id = credential_id })

unfoldable pub decode : List ℕ → Result ProtocolError SessionAttach
unfolding decode_with fields
decode frame = decode_with fields validate encode frame
