-- ===== src/Protocol/Application/Decode.antt =====
-- `ApplicationFrame::decode` of phone-auth-protocol/src/application.rs.
use bio_auth.Common.{List, ℕ, Result}
use bio_auth.Cbor.Reader
use bio_auth.Protocol.Defs.{ProtocolError, message_type_application, session_binding_len}
use bio_auth.Protocol.Parser.{Parser, ◌>>=◌, ◌>>◌, pure, item, header, fixed_bytes, coded}
use bio_auth.Protocol.Codec.{decode_with}
use bio_auth.Protocol.Application.{
  ApplicationFrame, application_frame_len, validate, encode, kind_from_wire,
}

unfoldable pub fields : Parser ApplicationFrame
fields = do
  header application_frame_len message_type_application
  version ← item Reader.uint
  kind ← coded Reader.uint kind_from_wire
  request_id ← item Reader.text
  session_binding ← fixed_bytes "sessionBinding" session_binding_len
  operation ← item Reader.text
  issued_at_ms ← item Reader.int
  expires_at_ms ← item Reader.int
  payload ← item Reader.bytes
  pure (record {
    version = version;
    kind = kind;
    request_id = request_id;
    session_binding = session_binding;
    operation = operation;
    issued_at_ms = issued_at_ms;
    expires_at_ms = expires_at_ms;
    payload = payload;
  })

unfoldable pub decode : List ℕ → Result ProtocolError ApplicationFrame
unfolding decode_with fields
decode frame = decode_with fields validate encode frame
