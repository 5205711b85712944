-- ===== src/Protocol/Enrolment/Decode.antt =====
-- `Enrolment::decode` of phone-auth-protocol/src/enrolment.rs.
use bio_auth.Common.{List, ℕ, Result}
use bio_auth.Cbor.Reader
use bio_auth.Protocol.Defs.{ProtocolError, message_type_enrolment}
use bio_auth.Protocol.Parser.{Parser, ◌>>=◌, ◌>>◌, pure, item, header, coded, reserved}
use bio_auth.Protocol.Codec.{decode_with}
use bio_auth.Protocol.Enrolment.{
  Enrolment, enrolment_frame_len, validate, encode, key_kind_from_wire, purpose_from_wire,
}

unfoldable pub fields : Parser Enrolment
fields = do
  header enrolment_frame_len message_type_enrolment
  version ← item Reader.uint
  device_name ← item Reader.text
  credential_id ← item Reader.text
  algorithm ← item Reader.text
  public_key ← item Reader.bytes
  key_kind ← coded Reader.int key_kind_from_wire
  purpose ← coded Reader.int purpose_from_wire
  reserved
  pure (record {
    version = version;
    device_name = device_name;
    credential_id = credential_id;
    algorithm = algorithm;
    public_key = public_key;
    key_kind = key_kind;
    purpose = purpose;
  })

unfoldable pub decode : List ℕ → Result ProtocolError Enrolment
unfolding decode_with fields
decode frame = decode_with fields validate encode frame
