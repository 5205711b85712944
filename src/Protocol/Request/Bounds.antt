-- ===== src/Protocol/Request/Bounds.antt =====
-- The size of the requests of phone-auth-protocol/src/request.rs.
use bio_auth.Common.{◌≤◌, ◌≡◌, ok, [], length, length-append, arith}
use bio_auth.Cbor.Items.{uint_item, int_item, text_item, bytes_item}
use bio_auth.Protocol.Defs.{check_text, check_window}
use bio_auth.Protocol.Codec.{Fits}
use bio_auth.Protocol.Items.{header_items}
use bio_auth.Protocol.Bounds.{
  length-head_bytes, length-int_item, length-header_items, at_most, checked_item, array_item_size,
}
use bio_auth.Protocol.Request.{AuthRequest, encode, validate}
use bio_auth.Protocol.Request.Laws.{IsTyped, frame_items, encode-items, fields-Reads, fields-Takes}
use bio_auth.Protocol.Request.Decode.{fields, decode}
use bio_auth.Protocol.Codec

-- The checks of `validate`, one by one.
pub record IsValid (m : AuthRequest) : Type 0 where
  pub version : m.version ≡ 1
  pub request_id : check_text "requestId" m.request_id 64 ≡ ok tt
  pub verifier_id : check_text "verifierId" m.verifier_id 64 ≡ ok tt
  pub verifier_name : check_text "verifierName" m.verifier_name 128 ≡ ok tt
  pub credential_id : check_text "credentialId" m.credential_id 64 ≡ ok tt
  pub service : check_text "service" m.service 64 ≡ ok tt
  pub action : check_text "action" m.action 128 ≡ ok tt
  pub resource : check_text "resource" m.resource 256 ≡ ok tt
  pub user : check_text "user" m.user 128 ≡ ok tt
  pub window : check_window m.issued_at_ms m.expires_at_ms ≡ ok tt

pub validate_ok : (m : AuthRequest) → validate m ≡ ok tt → IsValid m
unfolding validate
validate_ok m e = ground arith

length-frame_items : (m : AuthRequest) → IsTyped m → IsValid m → length (frame_items m) ≤ 8192
unfolding frame_items
length-frame_items m w v =
    let text = checked_item in
    let sum = at_most (header_items 14 1) _ (length-header_items 14 1).1 (
      at_most (uint_item m.version) _ (length-head_bytes 0 m.version) (
        at_most (text_item m.request_id) _ (text _ _ 64 w.request_id_text v.request_id) (
          at_most (text_item m.verifier_id) _ (text _ _ 64 w.verifier_id_text v.verifier_id) (
            at_most (text_item m.verifier_name) _
              (text _ _ 128 w.verifier_name_text v.verifier_name)
              (at_most (text_item m.credential_id) _
                (text _ _ 64 w.credential_id_text v.credential_id)
                (at_most (bytes_item m.challenge) _ (array_item_size 32 _ w.challenge_array.0) (
                  at_most (text_item m.service) _ (text _ _ 64 w.service_text v.service) (
                    at_most (text_item m.action) _ (text _ _ 128 w.action_text v.action) (
                      at_most (text_item m.resource) _ (text _ _ 256 w.resource_text v.resource) (
                        at_most (text_item m.user) _ (text _ _ 128 w.user_text v.user) (
                          at_most (int_item m.issued_at_ms) _ (length-int_item m.issued_at_ms) (
                            at_most (int_item m.expires_at_ms) _ (length-int_item m.expires_at_ms) (
                              at_most (bytes_item m.session_binding) [] {b = 0}
                                (array_item_size 32 _ w.binding_array.0)
                                (omega arith)))))))))))))) in
    omega (arith, sum)

encode_pos : (m : AuthRequest) → 1 ≤ length (frame_items m)
unfolding frame_items
encode_pos m = omega (arith, (length-header_items 14 1).0, length-append (header_items 14 1) _)

pub encode-Fits : (m : AuthRequest) → IsTyped m → validate m ≡ ok tt → Fits (encode m)
encode-Fits m w e = rw (encode-items m) (encode_pos m, length-frame_items m w (validate_ok m e))

-- Every well-typed request that passes `validate` survives the wire: its encoding has a permitted
-- size, and decodes to it.
pub decode-encode :
    (m : AuthRequest)
    → IsTyped m
    → validate m ≡ ok tt
    → Fits (encode m) × (decode (encode m) ≡ ok m)
unfolding decode
decode-encode m w e =
    let fits = encode-Fits m w e in
    (fits, Codec.decode-encode fields validate encode IsTyped fields-Reads fields-Takes m w e fits)
