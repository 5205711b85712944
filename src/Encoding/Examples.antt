-- ===== src/Encoding/Examples.antt =====
-- The theorem on hexadecimal text, at three bytes.
use bio_auth.Common.{◌≡◌, ◌∷◌, [], arith, ok}
use bio_auth.Encoding.{to_hex, from_hex}
use bio_auth.Encoding.HexRoundTrip.{from_hex-to_hex}

from_hex-to_hex_example : from_hex (to_hex (0 ∷ 171 ∷ 255 ∷ [])) ≡ ok (0 ∷ 171 ∷ 255 ∷ [])
from_hex-to_hex_example = from_hex-to_hex (0 ∷ 171 ∷ 255 ∷ []) (ground arith)
