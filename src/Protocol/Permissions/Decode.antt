-- ===== src/Protocol/Permissions/Decode.antt =====
-- The decoders of phone-auth-protocol/src/permissions.rs.
use bio_auth.Common.{ℕ, zero, suc, List, [], ◌∷◌, Result, refuse, ltb}
use bio_auth.Cbor.Reader
use bio_auth.Cbor.Reader.{new}
use bio_auth.Protocol.Defs.{ProtocolError, payload_size}
use bio_auth.Protocol.Parser.{Parser, ◌>>=◌, ◌>>◌, pure, item, check}
use bio_auth.Protocol.Permissions.{
  Permission, SyncRequest, SyncResponse, permissions_schema, max_permissions, sync_request_fields,
  sync_response_fields, encode_request, encode_response, validate_request, validate_response,
}
use bio_auth.Protocol.Payload.{array_of, opening, decode_payload}

unfoldable pub read : Parser Permission
read = do
  array_of 4
  service ← item Reader.text
  action ← item Reader.text
  resource ← item Reader.text
  user ← item Reader.text
  pure (record { service = service; action = action; resource = resource; user = user })

-- The loop over the promised number of permissions.
unfoldable pub read_all : ℕ → Parser (List Permission)
read_all zero = pure []
read_all (suc n) = do m ← read; ms ← read_all n; pure (m ∷ ms)

unfoldable pub read_set : Parser (List Permission)
read_set = do
  count ← item Reader.array
  check (refuse (ltb max_permissions count) (payload_size count))
  read_all count

unfoldable pub request_fields : Parser SyncRequest
request_fields = do
  opening permissions_schema sync_request_fields
  verifier_name ← item Reader.text
  revision ← item Reader.uint
  permissions ← read_set
  pure (record { verifier_name = verifier_name; revision = revision; permissions = permissions })

unfoldable pub response_fields : Parser SyncResponse
response_fields = do
  opening permissions_schema sync_response_fields
  revision ← item Reader.uint
  permissions ← read_set
  pure (record { revision = revision; permissions = permissions })

unfoldable pub decode_request : List ℕ → Result ProtocolError SyncRequest
decode_request payload = decode_payload request_fields validate_request encode_request payload

unfoldable pub decode_response : List ℕ → Result ProtocolError SyncResponse
decode_response payload = decode_payload response_fields validate_response encode_response payload
