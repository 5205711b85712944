-- ===== src/Protocol/Request/Decode.antt =====
-- `AuthRequest::decode` of phone-auth-protocol/src/request.rs.
use bio_auth.Common.{ℕ, List, Result}
use bio_auth.Cbor.Reader
use bio_auth.Protocol.Defs.{ProtocolError, message_type_request, challenge_len, session_binding_len}
use bio_auth.Protocol.Parser.{Parser, ◌>>=◌, ◌>>◌, pure, item, header, fixed_bytes}
use bio_auth.Protocol.Codec.{decode_with}
use bio_auth.Protocol.Request.{AuthRequest, request_frame_len, validate, encode}

unfoldable pub fields : Parser AuthRequest
fields = do
  header request_frame_len message_type_request
  version ← item Reader.uint
  request_id ← item Reader.text
  verifier_id ← item Reader.text
  verifier_name ← item Reader.text
  credential_id ← item Reader.text
  challenge ← fixed_bytes "challenge" challenge_len
  service ← item Reader.text
  action ← item Reader.text
  resource ← item Reader.text
  user ← item Reader.text
  issued_at_ms ← item Reader.int
  expires_at_ms ← item Reader.int
  session_binding ← fixed_bytes "sessionBinding" session_binding_len
  pure (record {
    version = version;
    request_id = request_id;
    verifier_id = verifier_id;
    verifier_name = verifier_name;
    credential_id = credential_id;
    challenge = challenge;
    service = service;
    action = action;
    resource = resource;
    user = user;
    issued_at_ms = issued_at_ms;
    expires_at_ms = expires_at_ms;
    session_binding = session_binding;
  })

unfoldable pub decode : List ℕ → Result ProtocolError AuthRequest
unfolding decode_with fields
decode frame = decode_with fields validate encode frame
