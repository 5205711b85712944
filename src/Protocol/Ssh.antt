-- ===== src/Protocol/Ssh.antt =====
-- phone-auth-protocol/src/ssh.rs: the key and signature blobs of SSH.
pub mod Writer
pub mod Reader
pub mod Fields
pub mod Keys
pub mod Integers
pub mod Signatures
use bio_auth.Common.{
  ℕ, ◌-◌, List, [], ◌∷◌, ◌++◌, Bool, false, Option, none, some, ◌||◌, ◌*◌, not, Result, ok, err,
  ◌>>=◌, ◌>>◌, refuse, str, text_eq, if◌then◌else◌, ltb, ◌==◌, length, take, drop,
}
use bio_auth.Protocol.Defs.{ProtocolError, field_length, invalid_operation}
use bio_auth.Protocol.Ssh.Writer
use bio_auth.Protocol.Ssh.Reader

abbrev pub ecdsa_p256_name : List ℕ
ecdsa_p256_name = str "ecdsa-sha2-nistp256"

abbrev pub ecdsa_p256_curve : List ℕ
ecdsa_p256_curve = str "nistp256"

abbrev pub uncompressed_point_len : ℕ
uncompressed_point_len = 65

abbrev pub scalar_len : ℕ
scalar_len = 32

-- `point[0] == 0x04`, of a point that is not empty.
abbrev pub starts_with_4 : List ℕ → Bool
starts_with_4 [] = false
starts_with_4 (b ∷ bs) = b == 4

-- The size and the mark of an uncompressed point; not whether it lies on the curve.
abbrev pub check_point : List ℕ → Result ProtocolError (Unit {0})
check_point point =
    refuse (not (length point == uncompressed_point_len) || not (starts_with_4 point))
      (field_length "sshPublicKeyPoint" uncompressed_point_len (length point))

unfoldable pub encode_public_key : List ℕ → Result ProtocolError (List ℕ)
encode_public_key point = do
  check_point point
  ok (Writer.text ecdsa_p256_name ++ (Writer.text ecdsa_p256_curve ++ Writer.string point))

unfoldable pub decode_public_key : List ℕ → Result ProtocolError (List ℕ)
decode_public_key blob = do
  (name, rest) ← Reader.text blob
  refuse (not (text_eq name ecdsa_p256_name)) invalid_operation
  (curve, rest) ← Reader.text rest
  refuse (not (text_eq curve ecdsa_p256_curve)) invalid_operation
  (point, rest) ← Reader.string rest
  Reader.finish rest
  check_point point
  ok point

unfoldable pub encode_signature : List ℕ → Result ProtocolError (List ℕ)
encode_signature raw = do
  refuse (not (length raw == scalar_len * 2))
      (field_length "sshSignature" (scalar_len * 2) (length raw))
  let inner = Writer.mpint (take scalar_len raw) ++ Writer.mpint (drop scalar_len raw)
  ok (Writer.text ecdsa_p256_name ++ Writer.string inner)

-- A scalar of a fixed 32 bytes.
unfoldable pub padded : List ℕ → Result ProtocolError (List ℕ)
padded scalar = do
  let trimmed = Writer.trim scalar
  refuse (ltb scalar_len (length trimmed))
      (field_length "sshSignatureScalar" scalar_len (length trimmed))
  ok (Writer.zeros (scalar_len - length trimmed) ++ trimmed)

unfoldable pub decode_signature : List ℕ → Result ProtocolError (List ℕ)
decode_signature blob = do
  (name, rest) ← Reader.text blob
  refuse (not (text_eq name ecdsa_p256_name)) invalid_operation
  (inner, rest) ← Reader.string rest
  Reader.finish rest
  (r, rest) ← Reader.string inner
  (s, rest) ← Reader.string rest
  Reader.finish rest
  r ← padded r
  s ← padded s
  ok (r ++ s)

unfoldable pub point_from_spki : List ℕ → Result ProtocolError (List ℕ)
point_from_spki spki = do
  refuse (ltb (length spki) uncompressed_point_len)
      (field_length "spki" uncompressed_point_len (length spki))
  let point = drop (length spki - uncompressed_point_len) spki
  refuse (not (starts_with_4 point)) invalid_operation
  ok point

-- What `account_in_request` reads. Which error it is does not matter: each gives `None`.
unfoldable pub read_account : List ℕ → Result ProtocolError (List ℕ × List ℕ)
read_account bytes = do
  (session_id, rest) ← Reader.string bytes
  (kind, rest) ← Reader.uint8 rest
  refuse (not (kind == 50)) invalid_operation
  (user, rest) ← Reader.text rest
  (service, rest) ← Reader.text rest
  (method, rest) ← Reader.text rest
  refuse (not (text_eq method (str "publickey"))) invalid_operation
  ok (user, service)

-- `.ok()`.
abbrev pub to_account : Result ProtocolError (List ℕ × List ℕ) → Option (List ℕ × List ℕ)
to_account (ok account) = some account
to_account (err e) = none

unfoldable pub account_in_request : List ℕ → Option (List ℕ × List ℕ)
account_in_request bytes = to_account (read_account bytes)
