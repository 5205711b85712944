-- ===== src/Protocol/Permissions/Laws.antt =====
-- `encode` and `decode` of the two messages of phone-auth-protocol/src/permissions.rs.
use bio_auth.Common.{
  ℕ, ◌≡◌, ◌≤◌, ◌↔◌, sym, ◌++◌, [], List, arith, append_assoc, append-nil, ok, length, All,
}
use bio_auth.Common.Bytes.{AreBytes}
use bio_auth.Cbor.Items.{array_item, uint_item, text_item, writes}
use bio_auth.Cbor.Reader
use bio_auth.Cbor.Reader.{Reader, new, finish}
use bio_auth.Cbor.Position.{Reads, Takes, Takes-bind, Takes-ok}
use bio_auth.Protocol.Codec.{Reads-bind, Reads-pure}
use bio_auth.Protocol.Items.{IsU64, IsText, text_field, uint_field, text-takes, uint-takes}
use bio_auth.Protocol.Parser.{item}
use bio_auth.Protocol.Permissions.{
  Permission, SyncRequest, SyncResponse, check_set, encode_request, encode_response,
  validate_request, validate_response,
}
use bio_auth.Protocol.Permissions.Decode.{
  read_set, request_fields, response_fields, decode_request, decode_response,
}
use bio_auth.Protocol.Permissions.Items.{
  IsTyped, set_items, write_set-extend, read_set-Reads, read_set-takes,
}
use bio_auth.Protocol.Payload.{opening}
use bio_auth.Protocol.Payload.Laws.{IsPayload, opening-Reads, opening-takes, decoded_iff}

check_set-few : (ms : List Permission) → check_set ms ≡ ok tt → length ms ≤ 64
unfolding check_set
check_set-few ms e = ground arith

-- What the types of the source say of the two messages.
pub record IsTypedRequest (m : SyncRequest) : Type 0 where
  pub name_typed : IsText m.verifier_name
  pub revision_typed : IsU64 m.revision
  pub permissions_typed : All IsTyped m.permissions

pub record IsTypedResponse (m : SyncResponse) : Type 0 where
  pub revision_typed : IsU64 m.revision
  pub permissions_typed : All IsTyped m.permissions

request_items : SyncRequest → List ℕ
request_items m =
    (array_item 4 ++ (uint_item 1 ++ []))
    ++ (text_item m.verifier_name ++ (uint_item m.revision ++ (set_items m.permissions ++ [])))

encode_request-items : (m : SyncRequest) → encode_request m ≡ request_items m
unfolding encode_request request_items
encode_request-items m =
    simp (encode_request, request_items, writes, write_set-extend, append_assoc, append-nil)

response_items : SyncResponse → List ℕ
response_items m =
    (array_item 3 ++ (uint_item 1 ++ []))
    ++ (uint_item m.revision ++ (set_items m.permissions ++ []))

encode_response-items : (m : SyncResponse) → encode_response m ≡ response_items m
unfolding encode_response response_items
encode_response-items m =
    simp (encode_response, response_items, writes, write_set-extend, append_assoc, append-nil)

request-Reads :
    (m : SyncRequest)
    → IsTypedRequest m
    → validate_request m ≡ ok tt
    → Reads request_fields (encode_request m) m
unfolding request_fields validate_request request_items
request-Reads m t e = rw (encode_request-items m) (
    Reads-bind _ _ _ _ tt m (opening-Reads 1 4 (omega arith) (omega arith)) (
      Reads-bind _ _ _ _ m.verifier_name m (text_field _ t.name_typed) (
        Reads-bind _ _ _ _ m.revision m (uint_field _ t.revision_typed) (
          Reads-bind _ _ _ _ m.permissions m
            (read_set-Reads m.permissions t.permissions_typed
              (check_set-few m.permissions (ground arith)))
            (Reads-pure m)))))

response-Reads :
    (m : SyncResponse)
    → IsTypedResponse m
    → validate_response m ≡ ok tt
    → Reads response_fields (encode_response m) m
unfolding response_fields validate_response response_items
response-Reads m t e = rw (encode_response-items m) (
    Reads-bind _ _ _ _ tt m (opening-Reads 1 3 (omega arith) (omega arith)) (
      Reads-bind _ _ _ _ m.revision m (uint_field _ t.revision_typed) (
        Reads-bind _ _ _ _ m.permissions m
          (read_set-Reads m.permissions t.permissions_typed
            (check_set-few m.permissions (ground arith)))
          (Reads-pure m))))

request-takes : Takes request_fields (λ used m. (used ≡ encode_request m) × IsTypedRequest m)
unfolding request_fields
request-takes = Takes-bind (opening 1 4) _ _ _ (opening-takes 1 4) λ u0 _ _ e0.
    Takes-bind (item Reader.text) _ _ _ text-takes λ u1 name _ (e1, w1).
      Takes-bind (item Reader.uint) _ _ _ uint-takes λ u2 revision _ (e2, w2).
        Takes-bind read_set _ _ _ read_set-takes λ u3 ms _ (e3, w3). Takes-ok _ _ (
          rw (e0, e1, e2, e3) (sym (unfold request_items in encode_request-items _)),
          record { name_typed = w1; revision_typed = w2; permissions_typed = w3 },
        )

response-takes : Takes response_fields (λ used m. (used ≡ encode_response m) × IsTypedResponse m)
unfolding response_fields
response-takes = Takes-bind (opening 1 3) _ _ _ (opening-takes 1 3) λ u0 _ _ e0.
    Takes-bind (item Reader.uint) _ _ _ uint-takes λ u1 revision _ (e1, w1).
      Takes-bind read_set _ _ _ read_set-takes λ u2 ms _ (e2, w2). Takes-ok _ _ (
        rw (e0, e1, e2) (sym (unfold response_items in encode_response-items _)),
        record { revision_typed = w1; permissions_typed = w2 },
      )

-- A payload decodes to a request exactly when the request is well typed and valid, and the payload is
-- its encoding and of a permitted size.
pub decode_request_iff :
    (payload : List ℕ) (m : SyncRequest)
    → AreBytes payload
    → (decode_request payload ≡ ok m) ↔ (
        (encode_request m ≡ payload)
        × IsTypedRequest m
        × (validate_request m ≡ ok tt)
        × IsPayload payload)
unfolding decode_request
decode_request_iff payload m clean =
    decoded_iff request_fields validate_request encode_request IsTypedRequest request-Reads
      request-takes payload m clean

-- A payload decodes to an answer exactly when the answer is well typed and valid, and the payload is its
-- encoding and of a permitted size.
pub decode_response_iff :
    (payload : List ℕ) (m : SyncResponse)
    → AreBytes payload
    → (decode_response payload ≡ ok m) ↔ (
        (encode_response m ≡ payload)
        × IsTypedResponse m
        × (validate_response m ≡ ok tt)
        × IsPayload payload)
unfolding decode_response
decode_response_iff payload m clean =
    decoded_iff response_fields validate_response encode_response IsTypedResponse response-Reads
      response-takes payload m clean
