-- ===== src/Protocol/Vault.antt =====
-- phone-auth-protocol/src/vault.rs: what the desktop asks of the vault on the phone.
pub mod Kind
pub mod Page
pub mod PageDecode
pub mod PageWire
pub mod Decode
pub mod ListRequestWire
pub mod FetchRequestWire
pub mod FetchResponseWire
pub mod CreateRequestWire
pub mod UpdateRequestWire
pub mod WriteResponseWire
pub mod DeleteRequestWire
pub mod DeleteResponseWire
pub mod Laws
use bio_auth.Common.{
  ℕ, List, not, ◌==◌, ◌||◌, ltb, length, is_empty, refuse, Result, ok, err, String, if◌then◌else◌,
  ◌>>◌, ◌>>=◌,
}
use bio_auth.Cbor.Writer.{new, ◌▹◌, array, uint, text, bytes}
use bio_auth.Protocol.Defs.{
  Checked, ProtocolError, check_text, field_empty, field_too_long, invalid_revision,
  invalid_item_kind,
}
use bio_auth.Text.{utf16_len}

pub data ItemKind : Type 0 where
  login note totp : ItemKind

abbrev pub kind_wire : ItemKind → ℕ
kind_wire login = 0
kind_wire note = 1
kind_wire totp = 2

unfoldable pub kind_from_wire : ℕ → Result ProtocolError ItemKind
kind_from_wire value =
    if value == 0
    then ok login
    else (if value == 1
        then ok note
        else (if value == 2 then ok totp else err (invalid_item_kind value)))

abbrev pub vault_schema : ℕ
vault_schema = 1

abbrev pub max_id_units : ℕ
max_id_units = 64

abbrev pub max_name_units : ℕ
max_name_units = 255

abbrev pub max_username_units : ℕ
max_username_units = 255

abbrev pub max_uri_units : ℕ
max_uri_units = 1024

abbrev pub max_cursor_units : ℕ
max_cursor_units = 128

abbrev pub max_secret_units : ℕ
max_secret_units = 4096

abbrev pub list_request_fields : ℕ
list_request_fields = 3

abbrev pub fetch_request_fields : ℕ
fetch_request_fields = 3

abbrev pub fetch_response_fields : ℕ
fetch_response_fields = 4

abbrev pub create_request_fields : ℕ
create_request_fields = 7

abbrev pub update_request_fields : ℕ
update_request_fields = 9

abbrev pub write_response_fields : ℕ
write_response_fields = 3

abbrev pub delete_request_fields : ℕ
delete_request_fields = 4

abbrev pub delete_response_fields : ℕ
delete_response_fields = 2

pub record ListRequest : Type 0 where
  pub verifier_name : List ℕ
  pub cursor : List ℕ

pub record FetchRequest : Type 0 where
  pub verifier_name : List ℕ
  pub item_id : List ℕ

pub record FetchResponse : Type 0 where
  pub item_id : List ℕ
  pub revision : ℕ
  pub secret : List ℕ

pub record CreateRequest : Type 0 where
  pub verifier_name : List ℕ
  pub kind : ItemKind
  pub name : List ℕ
  pub username : List ℕ
  pub uri : List ℕ
  pub secret : List ℕ

pub record UpdateRequest : Type 0 where
  pub verifier_name : List ℕ
  pub item_id : List ℕ
  pub expected_revision : ℕ
  pub kind : ItemKind
  pub name : List ℕ
  pub username : List ℕ
  pub uri : List ℕ
  pub secret : List ℕ

pub record WriteResponse : Type 0 where
  pub item_id : List ℕ
  pub revision : ℕ

pub record DeleteRequest : Type 0 where
  pub verifier_name : List ℕ
  pub item_id : List ℕ
  pub expected_revision : ℕ

pub record DeleteResponse : Type 0 where
  pub item_id : List ℕ

unfoldable pub check_optional_text : String → List ℕ → ℕ → Checked
check_optional_text field value max =
    let actual = utf16_len value in refuse (ltb max actual) (field_too_long field max actual)

unfoldable pub check_secret : List ℕ → Checked
check_secret value = do
  refuse (is_empty value) (field_empty "secret")
  let actual = utf16_len value
  refuse (ltb max_secret_units actual) (field_too_long "secret" max_secret_units actual)

unfoldable pub check_revision : ℕ → Checked
check_revision revision = refuse (revision == 0) invalid_revision

unfoldable pub validate_list_request : ListRequest → Checked
validate_list_request m = do
  check_text "verifierName" m.verifier_name max_name_units
  check_optional_text "cursor" m.cursor max_cursor_units

unfoldable pub encode_list_request : ListRequest → List ℕ
encode_list_request m =
    (new ▹ array list_request_fields ▹ uint vault_schema ▹ text m.verifier_name ▹ text m.cursor).buf

unfoldable pub validate_fetch_request : FetchRequest → Checked
validate_fetch_request m = do
  check_text "verifierName" m.verifier_name max_name_units
  check_text "itemId" m.item_id max_id_units

unfoldable pub encode_fetch_request : FetchRequest → List ℕ
encode_fetch_request m =
    (new
      ▹ array fetch_request_fields
      ▹ uint vault_schema
      ▹ text m.verifier_name
      ▹ text m.item_id).buf

unfoldable pub validate_fetch_response : FetchResponse → Checked
validate_fetch_response m = do
  check_text "itemId" m.item_id max_id_units
  check_revision m.revision
  check_secret m.secret

unfoldable pub encode_fetch_response : FetchResponse → List ℕ
encode_fetch_response m =
    (new
      ▹ array fetch_response_fields
      ▹ uint vault_schema
      ▹ text m.item_id
      ▹ uint m.revision
      ▹ text m.secret).buf

unfoldable pub validate_create_request : CreateRequest → Checked
validate_create_request m = do
  check_text "verifierName" m.verifier_name max_name_units
  check_text "name" m.name max_name_units
  check_optional_text "username" m.username max_username_units
  check_optional_text "uri" m.uri max_uri_units
  check_secret m.secret

unfoldable pub encode_create_request : CreateRequest → List ℕ
encode_create_request m =
    (new
      ▹ array create_request_fields
      ▹ uint vault_schema
      ▹ text m.verifier_name
      ▹ uint (kind_wire m.kind)
      ▹ text m.name
      ▹ text m.username
      ▹ text m.uri
      ▹ text m.secret).buf

unfoldable pub validate_update_request : UpdateRequest → Checked
validate_update_request m = do
  check_text "verifierName" m.verifier_name max_name_units
  check_text "itemId" m.item_id max_id_units
  check_revision m.expected_revision
  check_text "name" m.name max_name_units
  check_optional_text "username" m.username max_username_units
  check_optional_text "uri" m.uri max_uri_units
  check_secret m.secret

unfoldable pub encode_update_request : UpdateRequest → List ℕ
encode_update_request m =
    (new
      ▹ array update_request_fields
      ▹ uint vault_schema
      ▹ text m.verifier_name
      ▹ text m.item_id
      ▹ uint m.expected_revision
      ▹ uint (kind_wire m.kind)
      ▹ text m.name
      ▹ text m.username
      ▹ text m.uri
      ▹ text m.secret).buf

unfoldable pub validate_write_response : WriteResponse → Checked
validate_write_response m = do check_text "itemId" m.item_id max_id_units; check_revision m.revision

unfoldable pub encode_write_response : WriteResponse → List ℕ
encode_write_response m =
    (new ▹ array write_response_fields ▹ uint vault_schema ▹ text m.item_id ▹ uint m.revision).buf

unfoldable pub validate_delete_request : DeleteRequest → Checked
validate_delete_request m = do
  check_text "verifierName" m.verifier_name max_name_units
  check_text "itemId" m.item_id max_id_units
  check_revision m.expected_revision

unfoldable pub encode_delete_request : DeleteRequest → List ℕ
encode_delete_request m =
    (new
      ▹ array delete_request_fields
      ▹ uint vault_schema
      ▹ text m.verifier_name
      ▹ text m.item_id
      ▹ uint m.expected_revision).buf

unfoldable pub validate_delete_response : DeleteResponse → Checked
validate_delete_response m = check_text "itemId" m.item_id max_id_units

unfoldable pub encode_delete_response : DeleteResponse → List ℕ
encode_delete_response m =
    (new ▹ array delete_response_fields ▹ uint vault_schema ▹ text m.item_id).buf
