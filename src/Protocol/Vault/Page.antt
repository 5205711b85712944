-- ===== src/Protocol/Vault/Page.antt =====
-- `ItemSummary` and `ListResponse` of phone-auth-protocol/src/vault.rs.
use bio_auth.Common.{ℕ, List, [], ◌∷◌, ok, refuse, ltb, length, ◌>>◌}
use bio_auth.Common.Int.{ℤ}
use bio_auth.Cbor.Writer.{Writer, new, ◌▹◌, array, uint, int, text}
use bio_auth.Protocol.Application.{max_application_payload_bytes}
use bio_auth.Protocol.Defs.{Checked, check_text, payload_size}
use bio_auth.Protocol.Vault.{
  ItemKind, kind_wire, vault_schema, max_id_units, max_name_units, max_username_units,
  max_uri_units, max_cursor_units, check_optional_text, check_revision,
}

abbrev pub max_page_items : ℕ
max_page_items = 32

abbrev pub summary_fields : ℕ
summary_fields = 7

abbrev pub list_response_fields : ℕ
list_response_fields = 3

pub record ItemSummary : Type 0 where
  pub id : List ℕ
  pub revision : ℕ
  pub kind : ItemKind
  pub name : List ℕ
  pub username : List ℕ
  pub uri : List ℕ
  pub updated_at_ms : ℤ

pub record ListResponse : Type 0 where
  pub items : List ItemSummary
  pub next_cursor : List ℕ

unfoldable pub validate_summary : ItemSummary → Checked
validate_summary m = do
  check_text "itemId" m.id max_id_units
  check_text "name" m.name max_name_units
  check_optional_text "username" m.username max_username_units
  check_optional_text "uri" m.uri max_uri_units
  check_revision m.revision

unfoldable pub write_summary : ItemSummary → Writer → Writer
write_summary m w =
    w
    ▹ array summary_fields
    ▹ text m.id
    ▹ uint m.revision
    ▹ uint (kind_wire m.kind)
    ▹ text m.name
    ▹ text m.username
    ▹ text m.uri
    ▹ int m.updated_at_ms

-- `for item in &self.items { item.write(&mut writer) }`.
unfoldable pub write_items : List ItemSummary → Writer → Writer
write_items [] w = w
write_items (m ∷ ms) w = write_items ms (write_summary m w)

unfoldable pub encode_list_response : ListResponse → List ℕ
encode_list_response m =
    ((new
        ▹ array list_response_fields
        ▹ uint vault_schema
        ▹ array (length m.items)
        ▹ write_items m.items)
      ▹ text m.next_cursor).buf

-- `for item in &self.items { item.validate()? }`.
unfoldable pub validate_items : List ItemSummary → Checked
validate_items [] = ok tt
validate_items (m ∷ ms) = do validate_summary m; validate_items ms

unfoldable pub validate_list_response : ListResponse → Checked
validate_list_response m = do
  refuse (ltb max_page_items (length m.items)) (payload_size (length m.items))
  validate_items m.items
  check_optional_text "nextCursor" m.next_cursor max_cursor_units
  let encoded = length (encode_list_response m)
  refuse (ltb max_application_payload_bytes encoded) (payload_size encoded)
