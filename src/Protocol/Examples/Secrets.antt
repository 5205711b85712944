-- ===== src/Protocol/Examples/Secrets.antt =====
-- One message of each kind that carries a key or a secret.
use bio_auth.Common.{◌≡◌, refl, [], ◌∷◌, ok, str, true, all}
use bio_auth.Common.Bytes.{is_byte, all→AreBytes, to_be, from_be}
use bio_auth.Text.{is_blank, utf16_len, chars, chars_from, feed, is_utf8}
use bio_auth.Cbor.Reader
use bio_auth.Cbor.Writer
use bio_auth.Protocol.Defs.{check_text, bytes_equal, zip_equal}
use bio_auth.Protocol.Payload.{array_of, opening, check_payload, decode_payload}
use bio_auth.Protocol.Payload.Laws.{IsPayload}
use bio_auth.Protocol.Examples.SshBlobs.{repeated}
use bio_auth.Protocol.Luks
use bio_auth.Protocol.Luks.{validate_unlock_response, encode_unlock_response}
use bio_auth.Protocol.Luks.Decode.{decode_unlock_response, read_unlock_response}
use bio_auth.Protocol.Luks.UnlockResponseWire.{IsTypedUnlockResponse}
use bio_auth.Protocol.Luks.Laws.{luks-decode_iff}
use bio_auth.Protocol.Locker
use bio_auth.Protocol.Locker.{validate_wrap_response, encode_wrap_response}
use bio_auth.Protocol.Locker.Decode.{decode_wrap_response, read_wrap_response}
use bio_auth.Protocol.Locker.WrapResponseWire.{IsTypedWrapResponse}
use bio_auth.Protocol.Locker.Laws.{locker-decode_iff}
use bio_auth.Protocol.SshSign
use bio_auth.Protocol.SshSign.{validate_sign_request, encode_sign_request}
use bio_auth.Protocol.SshSign.Decode.{decode_sign_request, read_sign_request}
use bio_auth.Protocol.SshSign.SignRequestWire.{IsTypedSignRequest}
use bio_auth.Protocol.SshSign.Laws.{ssh_sign-decode_iff}
use bio_auth.Protocol.Vault

abbrev disk : Luks.UnlockResponse
disk = record { disk_key = repeated 5 32 }

disk_decoded : decode_unlock_response (encode_unlock_response disk) ≡ ok disk
unfolding decode_unlock_response read_unlock_response encode_unlock_response
    validate_unlock_response Luks.key Reader.array Reader.expect Reader.head Reader.take
    Reader.argument Reader.uint Reader.finish Reader.argument_of Reader.text Reader.bytes from_be
    is_utf8 check_text bytes_equal zip_equal is_blank utf16_len Writer.head Writer.text Writer.bytes
    Writer.uint Writer.array Writer.head_bytes to_be chars chars_from feed decode_payload
    check_payload opening array_of
disk_decoded = refl

disk_bytes : all is_byte (encode_unlock_response disk) ≡ true
unfolding encode_unlock_response Writer.head Writer.text Writer.bytes Writer.uint Writer.array
    Writer.head_bytes to_be
disk_bytes = refl

luks-decode_iff_example :
    (encode_unlock_response disk ≡ encode_unlock_response disk)
    × IsTypedUnlockResponse disk
    × (validate_unlock_response disk ≡ ok tt)
    × IsPayload (encode_unlock_response disk)
luks-decode_iff_example =
    (((luks-decode_iff (encode_unlock_response disk)
          (all→AreBytes (encode_unlock_response disk) disk_bytes)).3)
        disk).0
      disk_decoded

abbrev wrapped : Locker.WrapResponse
wrapped = record { credential_id = str "c1"; wrapper = repeated 8 3 }

wrapped_decoded : decode_wrap_response (encode_wrap_response wrapped) ≡ ok wrapped
unfolding decode_wrap_response read_wrap_response encode_wrap_response validate_wrap_response
    Locker.check_wrapper Reader.array Reader.expect Reader.head Reader.take Reader.argument
    Reader.uint Reader.finish Reader.argument_of Reader.text Reader.bytes from_be is_utf8 check_text
    bytes_equal zip_equal is_blank utf16_len Writer.head Writer.text Writer.bytes Writer.uint
    Writer.array Writer.head_bytes to_be chars chars_from feed decode_payload check_payload opening
    array_of
wrapped_decoded = refl

wrapped_bytes : all is_byte (encode_wrap_response wrapped) ≡ true
unfolding encode_wrap_response Writer.head Writer.text Writer.bytes Writer.uint Writer.array
    Writer.head_bytes to_be
wrapped_bytes = refl

locker-decode_iff_example :
    (encode_wrap_response wrapped ≡ encode_wrap_response wrapped)
    × IsTypedWrapResponse wrapped
    × (validate_wrap_response wrapped ≡ ok tt)
    × IsPayload (encode_wrap_response wrapped)
locker-decode_iff_example =
    (((locker-decode_iff (encode_wrap_response wrapped)
          (all→AreBytes (encode_wrap_response wrapped) wrapped_bytes)).1)
        wrapped).0
      wrapped_decoded

abbrev login : SshSign.SignRequest
login = record {
  verifier_name = str "Laptop";
  destination = str "SHA256:a2V5";
  signed_data = 1 ∷ 2 ∷ [];
}

login_decoded : decode_sign_request (encode_sign_request login) ≡ ok login
unfolding decode_sign_request read_sign_request encode_sign_request validate_sign_request
    SshSign.check_name SshSign.char_count Reader.array Reader.expect Reader.head Reader.take
    Reader.argument Reader.uint Reader.finish Reader.argument_of Reader.text Reader.bytes from_be
    is_utf8 check_text bytes_equal zip_equal is_blank utf16_len Writer.head Writer.text Writer.bytes
    Writer.uint Writer.array Writer.head_bytes to_be chars chars_from feed decode_payload
    check_payload opening array_of
login_decoded = refl

login_bytes : all is_byte (encode_sign_request login) ≡ true
unfolding encode_sign_request Writer.head Writer.text Writer.bytes Writer.uint Writer.array
    Writer.head_bytes to_be
login_bytes = refl

ssh_sign-decode_iff_example :
    (encode_sign_request login ≡ encode_sign_request login)
    × IsTypedSignRequest login
    × (validate_sign_request login ≡ ok tt)
    × IsPayload (encode_sign_request login)
ssh_sign-decode_iff_example =
    (((ssh_sign-decode_iff (encode_sign_request login)
          (all→AreBytes (encode_sign_request login) login_bytes)).0)
        login).0
      login_decoded

abbrev update : Vault.UpdateRequest
update = record {
  verifier_name = str "Laptop";
  item_id = str "i1";
  expected_revision = 3;
  kind = Vault.note;
  name = str "Codes";
  username = [];
  uri = [];
  secret = str "1234";
}
