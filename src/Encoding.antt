-- ===== src/Encoding.antt =====
-- phone-auth-protocol/src/encoding.rs: bytes as hexadecimal text.
pub mod HexRoundTrip
pub mod Examples
use bio_auth.Common.{
  ℕ, ◌+◌, ◌-◌, ◌*◌, ◌/◌, ◌%◌, List, [], ◌∷◌, Result, ok, err, ◌>>=◌, ◌>>◌, refuse, not, ◌==◌,
  length, within, String, if◌then◌else◌, bit_or, bit_and,
}

pub data DecodeError : Type 0 where
  decode_error : String → DecodeError

-- `DIGITS[i]` of a nibble.
unfoldable pub digit : ℕ → ℕ
digit n = if within 0 9 n then b'0' + n else b'a' + (n - 10)

unfoldable pub to_hex : List ℕ → List ℕ
unfolding digit
to_hex [] = []
to_hex (byte ∷ bytes) = digit (byte / 16) ∷ digit (bit_and byte 0x0f) ∷ to_hex bytes

unfoldable pub hex_digit : ℕ → Result DecodeError ℕ
hex_digit byte =
    if within b'0' b'9' byte
    then ok (byte - b'0')
    else (if within b'a' b'f' byte
        then ok (byte - b'a' + 10)
        else (if within b'A' b'F' byte
            then ok (byte - b'A' + 10)
            else err (decode_error "invalid hex digit")))

-- The pairs of a text of even length.
unfoldable pub pairs : List ℕ → Result DecodeError (List ℕ)
unfolding hex_digit
pairs [] = ok []
pairs (x ∷ []) = ok []
pairs (x ∷ y ∷ rest) = do
  hi ← hex_digit x
  lo ← hex_digit y
  tail ← pairs rest
  ok (bit_or (hi * 16 % 256) lo ∷ tail)

unfoldable pub from_hex : List ℕ → Result DecodeError (List ℕ)
unfolding pairs
from_hex value = do
  refuse (not (length value % 2 == 0)) (decode_error "hex string has an odd length")
  pairs value
