-- ===== src/Protocol/Ssh/Reader.antt =====
-- `SshReader` of phone-auth-protocol/src/ssh.rs. A reader is what is left of its input, from its position
-- on; a method returns its value with the reader behind it.
use bio_auth.Common.{
  ℕ, List, [], ◌∷◌, Result, ok, err, ◌>>=◌, ◌>>◌, refuse, not, if◌then◌else◌, ltb, length, take,
  drop, is_empty,
}
use bio_auth.Common.Bytes.{from_be}
use bio_auth.Text.{is_utf8}
use bio_auth.Protocol.Defs.{
  ProtocolError, not_canonical, payload_size, unexpected_end, invalid_text,
}

abbrev pub max_field_bytes : ℕ
max_field_bytes = 65536

unfoldable pub uint32 : List ℕ → Result ProtocolError (ℕ × List ℕ)
uint32 bytes =
    if ltb (length bytes) 4 then err unexpected_end else ok (from_be 0 (take 4 bytes), drop 4 bytes)

unfoldable pub uint8 : List ℕ → Result ProtocolError (ℕ × List ℕ)
uint8 [] = err unexpected_end
uint8 (byte ∷ bytes) = ok (byte, bytes)

unfoldable pub string : List ℕ → Result ProtocolError (List ℕ × List ℕ)
string bytes = do
  (size, rest) ← uint32 bytes
  refuse (ltb max_field_bytes size) (payload_size size)
  refuse (ltb (length rest) size) unexpected_end
  ok (take size rest, drop size rest)

unfoldable pub text : List ℕ → Result ProtocolError (List ℕ × List ℕ)
text bytes = do
  (value, rest) ← string bytes
  refuse (not (is_utf8 value)) (invalid_text "sshText")
  ok (value, rest)

unfoldable pub finish : List ℕ → Result ProtocolError (Unit {0})
finish bytes = refuse (not (is_empty bytes)) not_canonical
