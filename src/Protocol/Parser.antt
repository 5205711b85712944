-- ===== src/Protocol/Parser.antt =====
-- Reading a message field by field: a reader passed along, `?` on every step.
use bio_auth.Common.{
  ℕ, List, Result, ok, refuse, map_err, not, ◌==◌, length, String, ◌>>=◌ as then_result,
}
use bio_auth.Cbor.Reader.{Reader, Read}
use bio_auth.Cbor.Reader
use bio_auth.Protocol.Defs.{
  ProtocolError, cbor, frame_shape, unexpected_message_type, field_length, invalid_reserved_field,
}

abbrev pub Parser : Type 0 → Type 0
Parser A = Reader → Result ProtocolError (A × Reader)

infixl 5 ◌>>=◌ ◌>>◌
abbrev pub ◌>>=◌ : {A B : Type 0} → Parser A → (A → Parser B) → Parser B
◌>>=◌ p f r = then_result (p r) (λ x. f x.0 x.1)

abbrev pub ◌>>◌ : {B : Type 0} → Parser (Unit {0}) → Parser B → Parser B
p >> q = p >>= λ _. q

abbrev pub pure : {A : Type 0} → A → Parser A
pure a r = ok (a, r)

-- An item of the reader, its error by `From<CborError>`.
abbrev pub item : {A : Type 0} → Read A → Parser A
item read r = map_err cbor (read r)

abbrev pub check : {A : Type 0} → Result ProtocolError A → Parser A
check c r = then_result c (λ a. ok (a, r))

-- The array head and the message type, which begin every frame.
unfoldable pub header : ℕ → ℕ → Parser (Unit {0})
header fields type = do
  len ← item Reader.array
  check (refuse (not (len == fields)) (frame_shape fields len))
  found ← item Reader.uint
  check (refuse (not (found == type)) (unexpected_message_type found))

-- `fixed_bytes(field, reader.bytes()?)`.
unfoldable pub fixed_bytes : String → ℕ → Parser (List ℕ)
fixed_bytes field width = do
  value ← item Reader.bytes
  check (refuse (not (length value == width)) (field_length field width (length value)))
  pure value

-- An enumeration, by its number: `T::from_wire(reader.int()?)?`, and the same over `uint`.
unfoldable pub coded : {A B : Type 0} → Read A → (A → Result ProtocolError B) → Parser B
coded read from_wire = do value ← item read; check (from_wire value)

-- The last field of some frames, kept for a later version.
unfoldable pub reserved : Parser (Unit {0})
reserved = do
  value ← item Reader.uint
  check (refuse (not (value == 0)) (invalid_reserved_field value))
