-- ===== src/Protocol/Response/Decode.antt =====
-- `AuthResponse::decode` of phone-auth-protocol/src/response.rs.
use bio_auth.Common.{List, ℕ, Result}
use bio_auth.Cbor.Reader
use bio_auth.Protocol.Defs.{ProtocolError, message_type_response}
use bio_auth.Protocol.Parser.{Parser, ◌>>=◌, ◌>>◌, pure, item, header, coded}
use bio_auth.Protocol.Codec.{decode_with}
use bio_auth.Protocol.Response.{
  AuthResponse, response_frame_len, validate, encode, decision_from_wire,
}

unfoldable pub fields : Parser AuthResponse
fields = do
  header response_frame_len message_type_response
  version ← item Reader.uint
  request_id ← item Reader.text
  verifier_id ← item Reader.text
  credential_id ← item Reader.text
  decision ← coded Reader.int decision_from_wire
  algorithm ← item Reader.text
  signature ← item Reader.bytes
  pure (record {
    version = version;
    request_id = request_id;
    verifier_id = verifier_id;
    credential_id = credential_id;
    decision = decision;
    algorithm = algorithm;
    signature = signature;
  })

unfoldable pub decode : List ℕ → Result ProtocolError AuthResponse
unfolding decode_with fields
decode frame = decode_with fields validate encode frame
