-- ===== src/Protocol/Examples/SshBlobs.antt =====
-- The blobs of a key and of a signature.
use bio_auth.Common.{ℕ, zero, suc, ◌≡◌, refl, List, [], ◌∷◌, ◌++◌, ok, str}
use bio_auth.Common.Bytes.{to_be, all→AreBytes}
use bio_auth.Protocol.Ssh.Writer
use bio_auth.Protocol.Ssh.{encode_public_key, decode_public_key, encode_signature, decode_signature}
use bio_auth.Protocol.Ssh.Keys.{decode_public_key_iff}
use bio_auth.Protocol.Ssh.Signatures.{IsBlob, decode-encode_signature}

abbrev pub repeated : ℕ → ℕ → List ℕ
repeated b zero = []
repeated b (suc n) = b ∷ repeated b n

abbrev point : List ℕ
point = 4 ∷ repeated 200 64

abbrev blob : List ℕ
blob =
    0 ∷ 0 ∷ 0 ∷ 19 ∷ str "ecdsa-sha2-nistp256"
    ++ (0 ∷ 0 ∷ 0 ∷ 8 ∷ str "nistp256" ++ (0 ∷ 0 ∷ 0 ∷ 65 ∷ point))

decode_public_key_iff_example : decode_public_key blob ≡ ok point
unfolding encode_public_key Writer.string Writer.uint32 to_be
decode_public_key_iff_example = (decode_public_key_iff blob point (all→AreBytes blob refl)).1 refl

-- A scalar with two leading zeros, and one with a high first bit.
abbrev scalars : List ℕ
scalars = 0 ∷ 0 ∷ repeated 7 30 ++ repeated 255 32

abbrev signature : List ℕ
signature =
    0 ∷ 0 ∷ 0 ∷ 19 ∷ str "ecdsa-sha2-nistp256"
    ++ (0 ∷ 0 ∷ 0 ∷ 71 ∷ (0 ∷ 0 ∷ 0 ∷ 30 ∷ repeated 7 30 ++ (0 ∷ 0 ∷ 0 ∷ 33 ∷ 0 ∷ repeated 255 32)))

written : encode_signature scalars ≡ ok signature
unfolding encode_signature Writer.mpint Writer.trim Writer.string Writer.uint32 to_be
written = refl

decode-encode_signature_example :
    (out : List ℕ) × (encode_signature scalars ≡ ok out)
    × IsBlob scalars out
    × (decode_signature out ≡ ok scalars)
decode-encode_signature_example = decode-encode_signature scalars (all→AreBytes scalars refl) refl
