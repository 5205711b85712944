-- ===== src/Protocol/Application/ErrorCode/Laws.antt =====
-- `encode` and `decode` of the error code of phone-auth-protocol/src/application.rs.
use bio_auth.Common.{
  ℕ, ◌≡◌, ◌↔◌, refl, sym, List, ok, arith, not, refuse, >>=-eq-ok, subst, map_err,
}
use bio_auth.Common.Bytes.{to_be, from_be}
use bio_auth.Cbor.Writer
use bio_auth.Cbor.Reader
use bio_auth.Protocol.Codec.{bytes_equal_iff}
use bio_auth.Protocol.Defs.{cbor, not_canonical, bytes_equal, zip_equal}
use bio_auth.Protocol.Parser.{coded}
use bio_auth.Protocol.Application.ErrorCode.{
  ApplicationErrorCode, rejected, invalid_request, unavailable, encode_error, error_fields,
  decode_error, error_from_wire,
}

back : (c : ApplicationErrorCode) → decode_error (encode_error c) ≡ ok c
unfolding decode_error error_fields encode_error error_from_wire coded Writer.uint Writer.array
    Writer.head Writer.head_bytes to_be from_be Reader.array Reader.uint Reader.expect Reader.head
    Reader.take Reader.argument Reader.argument_of Reader.finish bytes_equal zip_equal
back rejected = refl
back invalid_request = refl
back unavailable = refl

only :
    (payload : List ℕ) (c : ApplicationErrorCode)
    → decode_error payload ≡ ok c
    → encode_error c ≡ payload
unfolding decode_error
only payload c e =
    let ((b, r), read, e1) = >>=-eq-ok (error_fields (Reader.new payload)) _ e in
    let (v, done, e2) = >>=-eq-ok (map_err cbor (Reader.finish r)) _ e1 in
    let (x, equal, e3) =
      >>=-eq-ok (refuse (not (bytes_equal payload (encode_error b))) not_canonical) _ e2 in
    let value : b ≡ c = ground arith in
    rw (← value) (sym ((bytes_equal_iff payload (encode_error b)).0 (ground (arith, equal))))

-- A payload decodes to an error code exactly when it is the encoding of that code.
pub decode_error_iff :
    (payload : List ℕ) (c : ApplicationErrorCode)
    → (decode_error payload ≡ ok c) ↔ (encode_error c ≡ payload)
decode_error_iff payload c =
    (only payload c, λ same. subst (λ (p : List ℕ). decode_error p ≡ ok c) same (back c))
