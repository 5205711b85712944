-- ===== src/Protocol/Examples/Payloads.antt =====
-- The payloads at one value each: a synchronization, an error code, and the first frame of a session.
use bio_auth.Common.{ℕ, ◌≡◌, ◌<◌, ◌↔◌, ◌⊎◌, refl, List, [], ◌∷◌, all, true, false, ok, str}
use bio_auth.Common.Bytes.{is_byte, all→AreBytes, to_be, from_be}
use bio_auth.Text.{is_blank, utf16_len, chars, chars_from, feed, is_utf8}
use bio_auth.Cbor.Reader
use bio_auth.Cbor.Writer
use bio_auth.Protocol.Defs.{check_text, bytes_equal, zip_equal}
use bio_auth.Protocol.Payload.{array_of, opening, check_payload, decode_payload}
use bio_auth.Protocol.Payload.Laws.{IsPayload}
use bio_auth.Protocol.Permissions.{
  Permission, SyncRequest, SyncResponse, mine, theirs, reconcile, validate, write, write_set,
  check_set, check_size, encode_request, encode_response, validate_request, validate_response,
}
use bio_auth.Protocol.Permissions.Decode.{
  read, read_all, read_set, request_fields, response_fields, decode_request, decode_response,
}
use bio_auth.Protocol.Permissions.Laws.{IsTypedRequest, decode_request_iff}
use bio_auth.Protocol.Permissions.Reconcile.{reconcile_agree}

abbrev grants : List Permission
grants =
    record { service = str "sudo"; action = str "*"; resource = str "*"; user = str "ana" }
    ∷ record { service = str "vault"; action = str "read"; resource = str "*"; user = str "ana" }
    ∷ []

abbrev offer : SyncRequest
offer = record { verifier_name = str "Laptop"; revision = 7; permissions = grants }

abbrev settled : SyncResponse
settled = record { revision = 9; permissions = grants }

request_payload_decoded : decode_request (encode_request offer) ≡ ok offer
unfolding decode_request decode_payload check_payload request_fields opening array_of read read_all
    read_set encode_request validate_request validate check_set check_size write write_set
    Reader.array Reader.expect Reader.head Reader.take Reader.argument Reader.uint Reader.finish
    Reader.argument_of Reader.text from_be is_utf8 check_text bytes_equal zip_equal is_blank
    utf16_len Writer.head Writer.text Writer.uint Writer.array Writer.head_bytes to_be chars
    chars_from feed
request_payload_decoded = refl

request_payload_bytes : all is_byte (encode_request offer) ≡ true
unfolding encode_request write write_set Writer.head Writer.text Writer.uint Writer.array
    Writer.head_bytes to_be
request_payload_bytes = refl

decode_request_iff_example :
    (encode_request offer ≡ encode_request offer)
    × IsTypedRequest offer
    × (validate_request offer ≡ ok tt)
    × IsPayload (encode_request offer)
decode_request_iff_example =
    (decode_request_iff (encode_request offer) offer
        (all→AreBytes (encode_request offer) request_payload_bytes)).0
      request_payload_decoded

response_payload_decoded : decode_response (encode_response settled) ≡ ok settled
unfolding decode_response decode_payload check_payload response_fields opening array_of read
    read_all read_set encode_response validate_response validate check_set check_size write
    write_set Reader.array Reader.expect Reader.head Reader.take Reader.argument Reader.uint
    Reader.finish Reader.argument_of Reader.text from_be is_utf8 check_text bytes_equal zip_equal
    is_blank utf16_len Writer.head Writer.text Writer.uint Writer.array Writer.head_bytes to_be
    chars chars_from feed
response_payload_decoded = refl

response_payload_bytes : all is_byte (encode_response settled) ≡ true
unfolding encode_response write write_set Writer.head Writer.text Writer.uint Writer.array
    Writer.head_bytes to_be
response_payload_bytes = refl

abbrev desktop_revision : ℕ
desktop_revision = 3

abbrev phone_revision : ℕ
phone_revision = 2

reconcile_agree_example :
    ((reconcile desktop_revision phone_revision false ≡ mine)
      ↔ (reconcile phone_revision desktop_revision true ≡ theirs))
    × ((reconcile desktop_revision phone_revision false ≡ theirs)
        ↔ (reconcile phone_revision desktop_revision true ≡ mine))
    × ((reconcile desktop_revision phone_revision false ≡ mine)
        ↔ ((phone_revision < desktop_revision) ⊎ (desktop_revision ≡ 0) × (phone_revision ≡ 0)))
reconcile_agree_example = reconcile_agree desktop_revision phone_revision
