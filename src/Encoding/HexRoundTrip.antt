-- ===== src/Encoding/HexRoundTrip.antt =====
-- `to_hex` and `from_hex` of phone-auth-protocol/src/encoding.rs, one after the other.
use bio_auth.Common.{
  ℕ, ◌≡◌, ◌<◌, ◌*◌, ◌/◌, ◌%◌, refl, List, [], ◌∷◌, arith, ok, ==_iff, length, ◌∙◌, ap, bit_or,
}
use bio_auth.Common.Bits.{and_0f, or_nibbles}
use bio_auth.Common.Bytes.{AreBytes}
use bio_auth.Encoding.{digit, to_hex, hex_digit, pairs, from_hex}

hex_digit-digit : (n : ℕ) → n < 16 → hex_digit (digit n) ≡ ok n
unfolding hex_digit digit
hex_digit-digit n h = ground arith

pairs-digits :
    (x y : ℕ) (rest tail : List ℕ) (hi lo : ℕ)
    → hex_digit x ≡ ok hi
    → hex_digit y ≡ ok lo
    → pairs rest ≡ ok tail
    → pairs (x ∷ y ∷ rest) ≡ ok (bit_or (hi * 16 % 256) lo ∷ tail)
unfolding pairs
pairs-digits x y rest tail hi lo e f g = rw (e, f, g) refl

pairs-to_hex : (bytes : List ℕ) → AreBytes bytes → pairs (to_hex bytes) ≡ ok bytes
unfolding to_hex
pairs-to_hex [] h = unfold pairs in refl
pairs-to_hex (b ∷ bytes) h = rw (and_0f b h.0) (
    pairs-digits (digit (b / 16)) (digit (b % 16)) (to_hex bytes) bytes (b / 16) (b % 16)
      (hex_digit-digit (b / 16) (omega (arith, h.0))) (hex_digit-digit (b % 16) (omega arith))
      (pairs-to_hex bytes h.1)
    ∙ ap (λ (x : ℕ). ok (x ∷ bytes)) (or_nibbles b h.0))

-- The hexadecimal text has two digits for each byte.
pub length-to_hex : (bytes : List ℕ) → length (to_hex bytes) ≡ 2 * length bytes
unfolding to_hex
length-to_hex [] = refl
length-to_hex (b ∷ bytes) = omega (arith, length-to_hex bytes)

-- Bytes written in hexadecimal are read back as they were, so no two byte strings share a text.
pub from_hex-to_hex : (bytes : List ℕ) → AreBytes bytes → from_hex (to_hex bytes) ≡ ok bytes
unfolding from_hex
from_hex-to_hex bytes h =
    let even : length (to_hex bytes) % 2 ≡ 0 = omega (arith, length-to_hex bytes) in
    rw ((==_iff (length (to_hex bytes) % 2) 0).1 even) (pairs-to_hex bytes h)
