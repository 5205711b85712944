-- ===== src/Protocol/Payload.antt =====
-- What the payloads of permissions.rs, luks.rs and ssh.rs, in phone-auth-protocol/src, have in common:
-- `open`, `finish` and the order of the checks in `decode`.
pub mod Laws
use bio_auth.Common.{
  ℕ, List, Result, ok, refuse, map_err, not, ◌==◌, ◌||◌, ltb, length, is_empty,
  ◌>>=◌ as then_result,
}
use bio_auth.Cbor.Reader
use bio_auth.Cbor.Reader.{new}
use bio_auth.Protocol.Application.{max_application_payload_bytes}
use bio_auth.Protocol.Defs.{
  Checked, ProtocolError, cbor, frame_shape, unsupported_version, payload_size, not_canonical,
  bytes_equal,
}
use bio_auth.Protocol.Parser.{Parser, ◌>>=◌, ◌>>◌, item, check}

-- An array head of one length.
unfoldable pub array_of : ℕ → Parser (Unit {0})
array_of fields = do
  len ← item Reader.array
  check (refuse (not (len == fields)) (frame_shape fields len))

-- `open`, behind its check of the size.
unfoldable pub opening : ℕ → ℕ → Parser (Unit {0})
opening schema_of fields = do
  array_of fields
  schema ← item Reader.uint
  check (refuse (not (schema == schema_of)) (unsupported_version schema))

unfoldable pub check_payload : List ℕ → Checked
check_payload payload =
    refuse (is_empty payload || ltb max_application_payload_bytes (length payload))
      (payload_size (length payload))

-- The end of a reading, `finish`, and the checks behind it.
unfoldable pub decode_payload :
    {A : Type 0} → Parser A → (A → Checked) → (A → List ℕ) → List ℕ → Result ProtocolError A
decode_payload fields validate encode payload = then_result (check_payload payload) λ _.
    then_result (fields (new payload)) λ x. then_result (map_err cbor (Reader.finish x.1)) λ _.
      then_result (refuse (not (bytes_equal (encode x.0) payload)) not_canonical)
        λ _. then_result (validate x.0) λ _. ok x.0
