-- ===== src/Protocol/Vault/Decode.antt =====
-- The decoders of phone-auth-protocol/src/vault.rs.
use bio_auth.Common.{ℕ, List, Result}
use bio_auth.Cbor.Reader
use bio_auth.Protocol.Defs.{ProtocolError}
use bio_auth.Protocol.Parser.{Parser, ◌>>=◌, ◌>>◌, pure, item, coded}
use bio_auth.Protocol.Payload.{opening, decode_payload}
use bio_auth.Protocol.Vault.{
  vault_schema, kind_from_wire, ListRequest, list_request_fields, validate_list_request,
  encode_list_request, FetchRequest, fetch_request_fields, validate_fetch_request,
  encode_fetch_request, FetchResponse, fetch_response_fields, validate_fetch_response,
  encode_fetch_response, CreateRequest, create_request_fields, validate_create_request,
  encode_create_request, UpdateRequest, update_request_fields, validate_update_request,
  encode_update_request, WriteResponse, write_response_fields, validate_write_response,
  encode_write_response, DeleteRequest, delete_request_fields, validate_delete_request,
  encode_delete_request, DeleteResponse, delete_response_fields, validate_delete_response,
  encode_delete_response,
}

unfoldable pub read_list_request : Parser ListRequest
read_list_request = do
  opening vault_schema list_request_fields
  verifier_name ← item Reader.text
  cursor ← item Reader.text
  pure (record { verifier_name = verifier_name; cursor = cursor })

unfoldable pub decode_list_request : List ℕ → Result ProtocolError ListRequest
decode_list_request payload =
    decode_payload read_list_request validate_list_request encode_list_request payload

unfoldable pub read_fetch_request : Parser FetchRequest
read_fetch_request = do
  opening vault_schema fetch_request_fields
  verifier_name ← item Reader.text
  item_id ← item Reader.text
  pure (record { verifier_name = verifier_name; item_id = item_id })

unfoldable pub decode_fetch_request : List ℕ → Result ProtocolError FetchRequest
decode_fetch_request payload =
    decode_payload read_fetch_request validate_fetch_request encode_fetch_request payload

unfoldable pub read_fetch_response : Parser FetchResponse
read_fetch_response = do
  opening vault_schema fetch_response_fields
  item_id ← item Reader.text
  revision ← item Reader.uint
  secret ← item Reader.text
  pure (record { item_id = item_id; revision = revision; secret = secret })

unfoldable pub decode_fetch_response : List ℕ → Result ProtocolError FetchResponse
decode_fetch_response payload =
    decode_payload read_fetch_response validate_fetch_response encode_fetch_response payload

unfoldable pub read_create_request : Parser CreateRequest
read_create_request = do
  opening vault_schema create_request_fields
  verifier_name ← item Reader.text
  kind ← coded Reader.uint kind_from_wire
  name ← item Reader.text
  username ← item Reader.text
  uri ← item Reader.text
  secret ← item Reader.text
  pure (record {
    verifier_name = verifier_name;
    kind = kind;
    name = name;
    username = username;
    uri = uri;
    secret = secret;
  })

unfoldable pub decode_create_request : List ℕ → Result ProtocolError CreateRequest
decode_create_request payload =
    decode_payload read_create_request validate_create_request encode_create_request payload

unfoldable pub read_update_request : Parser UpdateRequest
read_update_request = do
  opening vault_schema update_request_fields
  verifier_name ← item Reader.text
  item_id ← item Reader.text
  expected_revision ← item Reader.uint
  kind ← coded Reader.uint kind_from_wire
  name ← item Reader.text
  username ← item Reader.text
  uri ← item Reader.text
  secret ← item Reader.text
  pure (record {
    verifier_name = verifier_name;
    item_id = item_id;
    expected_revision = expected_revision;
    kind = kind;
    name = name;
    username = username;
    uri = uri;
    secret = secret;
  })

unfoldable pub decode_update_request : List ℕ → Result ProtocolError UpdateRequest
decode_update_request payload =
    decode_payload read_update_request validate_update_request encode_update_request payload

unfoldable pub read_write_response : Parser WriteResponse
read_write_response = do
  opening vault_schema write_response_fields
  item_id ← item Reader.text
  revision ← item Reader.uint
  pure (record { item_id = item_id; revision = revision })

unfoldable pub decode_write_response : List ℕ → Result ProtocolError WriteResponse
decode_write_response payload =
    decode_payload read_write_response validate_write_response encode_write_response payload

unfoldable pub read_delete_request : Parser DeleteRequest
read_delete_request = do
  opening vault_schema delete_request_fields
  verifier_name ← item Reader.text
  item_id ← item Reader.text
  expected_revision ← item Reader.uint
  pure (record {
    verifier_name = verifier_name;
    item_id = item_id;
    expected_revision = expected_revision;
  })

unfoldable pub decode_delete_request : List ℕ → Result ProtocolError DeleteRequest
decode_delete_request payload =
    decode_payload read_delete_request validate_delete_request encode_delete_request payload

unfoldable pub read_delete_response : Parser DeleteResponse
read_delete_response = do
  opening vault_schema delete_response_fields
  item_id ← item Reader.text
  pure (record { item_id = item_id })

unfoldable pub decode_delete_response : List ℕ → Result ProtocolError DeleteResponse
decode_delete_response payload =
    decode_payload read_delete_response validate_delete_response encode_delete_response payload
