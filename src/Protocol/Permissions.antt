-- ===== src/Protocol/Permissions.antt =====
-- phone-auth-protocol/src/permissions.rs: the permissions of a pairing, agreed on by its two sides.
pub mod Decode
pub mod Items
pub mod Laws
pub mod Reconcile
use bio_auth.Common.{
  ℕ, List, [], ◌∷◌, Bool, ok, ◌>>=◌, ◌>>◌, refuse, ◌||◌, ◌==◌, ◌&&◌, ltb, length, is_empty,
  if◌then◌else◌,
}
use bio_auth.Cbor.Writer.{Writer, new, ◌▹◌, array, uint, text}
use bio_auth.Protocol.Defs.{Checked, check_text, payload_size}
use bio_auth.Protocol.Application.{max_application_payload_bytes}

abbrev pub permissions_schema : ℕ
permissions_schema = 1

abbrev pub sync_request_fields : ℕ
sync_request_fields = 4

abbrev pub sync_response_fields : ℕ
sync_response_fields = 3

abbrev pub max_permissions : ℕ
max_permissions = 64

pub record Permission : Type 0 where
  pub service : List ℕ
  pub action : List ℕ
  pub resource : List ℕ
  pub user : List ℕ

unfoldable pub validate : Permission → Checked
validate m = do
  check_text "service" m.service 255
  check_text "action" m.action 255
  check_text "resource" m.resource 255
  check_text "user" m.user 255

unfoldable pub write : Permission → Writer → Writer
write m w = w ▹ array 4 ▹ text m.service ▹ text m.action ▹ text m.resource ▹ text m.user

pub data Winner : Type 0 where
  mine theirs : Winner

unfoldable pub reconcile : ℕ → ℕ → Bool → Winner
reconcile ours others phone_wins_ties =
    if ours == 0 && others == 0
    then (if phone_wins_ties then theirs else mine)
    else (if ltb others ours
        then mine
        else (if ltb ours others then theirs else (if phone_wins_ties then mine else theirs)))

pub record SyncRequest : Type 0 where
  pub verifier_name : List ℕ
  pub revision : ℕ
  pub permissions : List Permission

pub record SyncResponse : Type 0 where
  pub revision : ℕ
  pub permissions : List Permission

abbrev pub write_all : List Permission → Writer → Writer
write_all [] w = w
write_all (m ∷ ms) w = write_all ms (write m w)

unfoldable pub write_set : List Permission → Writer → Writer
write_set permissions w = write_all permissions (array (length permissions) w)

abbrev pub validate_all : List Permission → Checked
validate_all [] = ok tt
validate_all (m ∷ ms) = validate m >> validate_all ms

unfoldable pub check_set : List Permission → Checked
check_set permissions = do
  refuse (ltb max_permissions (length permissions)) (payload_size (length permissions))
  validate_all permissions

unfoldable pub check_size : ℕ → Checked
check_size encoded = refuse (ltb max_application_payload_bytes encoded) (payload_size encoded)

unfoldable pub encode_request : SyncRequest → List ℕ
encode_request m =
    (new
      ▹ array sync_request_fields
      ▹ uint permissions_schema
      ▹ text m.verifier_name
      ▹ uint m.revision
      ▹ write_set m.permissions).buf

unfoldable pub validate_request : SyncRequest → Checked
validate_request m = do
  check_text "verifierName" m.verifier_name 255
  check_set m.permissions
  check_size (length (encode_request m))

unfoldable pub encode_response : SyncResponse → List ℕ
encode_response m =
    (new
      ▹ array sync_response_fields
      ▹ uint permissions_schema
      ▹ uint m.revision
      ▹ write_set m.permissions).buf

unfoldable pub validate_response : SyncResponse → Checked
validate_response m = do check_set m.permissions; check_size (length (encode_response m))
