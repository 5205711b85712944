-- ===== src/Protocol/Examples.antt =====
-- One message of each kind, on which the theorems on frames are run.
pub mod Payloads
pub mod SshBlobs
pub mod Secrets
use bio_auth.Common.{◌≡◌, refl, [], ◌∷◌, all, true, ok, str}
use bio_auth.Common.Bytes.{is_byte, all→AreBytes, to_be, from_be}
use bio_auth.Common.Int.{pos, checked_sub, ◌-ℤ◌}
use bio_auth.Text.{is_blank, utf16_len, chars, chars_from, feed, is_utf8}
use bio_auth.Cbor.Reader
use bio_auth.Cbor.Writer
use bio_auth.Protocol.Defs.{check_text, check_window, check_frame_size, bytes_equal, zip_equal}
use bio_auth.Protocol.Parser.{header, coded, fixed_bytes, reserved}
use bio_auth.Protocol.Codec.{decode_with, Fits}
use bio_auth.Protocol.Request
use bio_auth.Protocol.Request.{AuthRequest}
use bio_auth.Protocol.Enrolment
use bio_auth.Protocol.Enrolment.{Enrolment}
use bio_auth.Protocol.Attach
use bio_auth.Protocol.Attach.{SessionAttach}
use bio_auth.Protocol.Application
use bio_auth.Protocol.Application.{ApplicationFrame}
use bio_auth.Verifier.Examples.{request, repeat}

abbrev enrolment : Enrolment
enrolment = record {
  version = 1;
  device_name = str "Pixel";
  credential_id = str "cred-1";
  algorithm = str "EC_P256_SPKI";
  public_key = 48 ∷ 89 ∷ 7 ∷ [];
  key_kind = Enrolment.hardware;
  purpose = Enrolment.authorization;
}

abbrev pub attach : SessionAttach
attach = record { version = 1; credential_id = str "cred-1" }

abbrev pub call : ApplicationFrame
call = record {
  version = 1;
  kind = Application.request;
  request_id = str "0a0b";
  session_binding = repeat 32 17;
  operation = str "vault.list";
  issued_at_ms = pos 1000;
  expires_at_ms = pos 61000;
  payload = 1 ∷ 2 ∷ [];
}

request_decoded : Request.Decode.decode (Request.encode request) ≡ ok request
unfolding Request.Decode.decode Request.Decode.fields Request.encode Request.validate decode_with
    check_frame_size header coded fixed_bytes reserved Reader.array Reader.expect Reader.head
    Reader.take Reader.argument Reader.uint Reader.finish Reader.argument_of Reader.text Reader.int
    Reader.bytes from_be is_utf8 check_text check_window checked_sub ◌-ℤ◌ bytes_equal zip_equal
    is_blank utf16_len Writer.bytes Writer.head Writer.text Writer.uint Writer.array
    Writer.head_bytes Writer.int to_be chars chars_from feed
request_decoded = refl

request_bytes : all is_byte (Request.encode request) ≡ true
unfolding Request.encode Writer.bytes Writer.head Writer.text Writer.uint Writer.array
    Writer.head_bytes Writer.int to_be
request_bytes = refl

decode_iff_example :
    (Request.encode request ≡ Request.encode request)
    × Request.Laws.IsTyped request
    × (Request.validate request ≡ ok tt)
    × Fits (Request.encode request)
decode_iff_example =
    (Request.Laws.decode_iff (Request.encode request) request
        (all→AreBytes (Request.encode request) request_bytes)).0
      request_decoded

enrolment_decoded : Enrolment.Decode.decode (Enrolment.encode enrolment) ≡ ok enrolment
unfolding Enrolment.Decode.decode Enrolment.Decode.fields Enrolment.encode Enrolment.validate
    Enrolment.key_kind_from_wire Enrolment.purpose_from_wire decode_with check_frame_size header
    coded fixed_bytes reserved Reader.array Reader.expect Reader.head Reader.take Reader.argument
    Reader.uint Reader.finish Reader.argument_of Reader.text Reader.int Reader.bytes from_be is_utf8
    check_text check_window checked_sub ◌-ℤ◌ bytes_equal zip_equal is_blank utf16_len Writer.bytes
    Writer.head Writer.text Writer.uint Writer.array Writer.head_bytes Writer.int to_be chars
    chars_from feed
enrolment_decoded = refl

enrolment_bytes : all is_byte (Enrolment.encode enrolment) ≡ true
unfolding Enrolment.encode Writer.bytes Writer.head Writer.text Writer.uint Writer.array
    Writer.head_bytes Writer.int to_be
enrolment_bytes = refl

enrolment-decode_iff_example :
    (Enrolment.encode enrolment ≡ Enrolment.encode enrolment)
    × Enrolment.Laws.IsTyped enrolment
    × (Enrolment.validate enrolment ≡ ok tt)
    × Fits (Enrolment.encode enrolment)
enrolment-decode_iff_example =
    (Enrolment.Laws.enrolment-decode_iff (Enrolment.encode enrolment) enrolment
        (all→AreBytes (Enrolment.encode enrolment) enrolment_bytes)).0
      enrolment_decoded

pub attach_decoded : Attach.Decode.decode (Attach.encode attach) ≡ ok attach
unfolding Attach.Decode.decode Attach.Decode.fields Attach.encode Attach.validate decode_with
    check_frame_size header coded fixed_bytes reserved Reader.array Reader.expect Reader.head
    Reader.take Reader.argument Reader.uint Reader.finish Reader.argument_of Reader.text Reader.int
    Reader.bytes from_be is_utf8 check_text check_window checked_sub ◌-ℤ◌ bytes_equal zip_equal
    is_blank utf16_len Writer.bytes Writer.head Writer.text Writer.uint Writer.array
    Writer.head_bytes Writer.int to_be chars chars_from feed
attach_decoded = refl

attach_bytes : all is_byte (Attach.encode attach) ≡ true
unfolding Attach.encode Writer.bytes Writer.head Writer.text Writer.uint Writer.array
    Writer.head_bytes Writer.int to_be
attach_bytes = refl

attach-decode_iff_example :
    (Attach.encode attach ≡ Attach.encode attach)
    × Attach.Laws.IsTyped attach
    × (Attach.validate attach ≡ ok tt)
    × Fits (Attach.encode attach)
attach-decode_iff_example =
    (Attach.Laws.attach-decode_iff (Attach.encode attach) attach
        (all→AreBytes (Attach.encode attach) attach_bytes)).0
      attach_decoded

pub application_decoded : Application.Decode.decode (Application.encode call) ≡ ok call
unfolding Application.Decode.decode Application.Decode.fields Application.encode
    Application.validate Application.kind_from_wire Application.valid_operation
    Application.strip_prefix Application.has_dots decode_with check_frame_size header coded
    fixed_bytes reserved Reader.array Reader.expect Reader.head Reader.take Reader.argument
    Reader.uint Reader.finish Reader.argument_of Reader.text Reader.int Reader.bytes from_be is_utf8
    check_text check_window checked_sub ◌-ℤ◌ bytes_equal zip_equal is_blank utf16_len Writer.bytes
    Writer.head Writer.text Writer.uint Writer.array Writer.head_bytes Writer.int to_be chars
    chars_from feed
application_decoded = refl

application_bytes : all is_byte (Application.encode call) ≡ true
unfolding Application.encode Writer.bytes Writer.head Writer.text Writer.uint Writer.array
    Writer.head_bytes Writer.int to_be
application_bytes = refl

application-decode_iff_example :
    (Application.encode call ≡ Application.encode call)
    × Application.Laws.IsTyped call
    × (Application.validate call ≡ ok tt)
    × Fits (Application.encode call)
application-decode_iff_example =
    (Application.Laws.application-decode_iff (Application.encode call) call
        (all→AreBytes (Application.encode call) application_bytes)).0
      application_decoded

decode-encode_example :
    Fits (Request.encode request) × (Request.Decode.decode (Request.encode request) ≡ ok request)
decode-encode_example =
    Request.Bounds.decode-encode request decode_iff_example.1 decode_iff_example.2
