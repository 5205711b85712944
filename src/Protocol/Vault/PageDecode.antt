-- ===== src/Protocol/Vault/PageDecode.antt =====
-- The decoder of `ListResponse` of phone-auth-protocol/src/vault.rs.
use bio_auth.Common.{ℕ, zero, suc, List, [], ◌∷◌, Result, refuse, ltb}
use bio_auth.Cbor.Reader
use bio_auth.Protocol.Defs.{ProtocolError, payload_size}
use bio_auth.Protocol.Parser.{Parser, ◌>>=◌, ◌>>◌, pure, item, check, coded}
use bio_auth.Protocol.Payload.{array_of, opening, decode_payload}
use bio_auth.Protocol.Vault.{kind_from_wire, vault_schema}
use bio_auth.Protocol.Vault.Page.{
  ItemSummary, ListResponse, summary_fields, list_response_fields, max_page_items,
  validate_list_response, encode_list_response,
}

unfoldable pub read_summary : Parser ItemSummary
read_summary = do
  array_of summary_fields
  id ← item Reader.text
  revision ← item Reader.uint
  kind ← coded Reader.uint kind_from_wire
  name ← item Reader.text
  username ← item Reader.text
  uri ← item Reader.text
  updated_at_ms ← item Reader.int
  pure (record {
    id = id;
    revision = revision;
    kind = kind;
    name = name;
    username = username;
    uri = uri;
    updated_at_ms = updated_at_ms;
  })

-- The loop over the promised number of items.
unfoldable pub read_items : ℕ → Parser (List ItemSummary)
read_items zero = pure []
read_items (suc n) = do m ← read_summary; ms ← read_items n; pure (m ∷ ms)

unfoldable pub read_page : Parser (List ItemSummary)
read_page = do
  count ← item Reader.array
  check (refuse (ltb max_page_items count) (payload_size count))
  read_items count

unfoldable pub read_list_response : Parser ListResponse
read_list_response = do
  opening vault_schema list_response_fields
  items ← read_page
  next_cursor ← item Reader.text
  pure (record { items = items; next_cursor = next_cursor })

unfoldable pub decode_list_response : List ℕ → Result ProtocolError ListResponse
decode_list_response payload =
    decode_payload read_list_response validate_list_response encode_list_response payload
