-- ===== src/Verifier/Signature.antt =====
-- phone-auth-verifier/src/signature.rs: the check of a proof. The P-256 library is a parameter.
use bio_auth.Common.{
  ℕ, List, Bool, not, Option, none, some, Result, ok, err, ◌>>=◌, ◌>>◌, refuse, text_eq, str,
}

-- `VerifyingKey::from_public_key_der`, `DerSignature::try_from` and `VerifyingKey::verify`.
pub record P256 : Type 1 where
  pub Key : Type 0
  pub Proof : Type 0
  pub key_from_der : List ℕ → Option Key
  pub proof_from_der : List ℕ → Option Proof
  pub verifies : Key → List ℕ → Proof → Bool

pub data SignatureError : Type 0 where
  unsupported_algorithm unsupported_key_encoding : List ℕ → SignatureError
  malformed_public_key malformed_signature invalid : SignatureError

abbrev pub algorithm_ecdsa_p256_sha256 : List ℕ
algorithm_ecdsa_p256_sha256 = str "SHA256withECDSA"

abbrev pub public_key_ec_p256_spki : List ℕ
public_key_ec_p256_spki = str "EC_P256_SPKI"

-- `ok_or`.
abbrev pub ok_or {ℓ} : {A E : Type ℓ} → Option A → E → Result E A
ok_or none e = err e
ok_or (some a) e = ok a

unfoldable pub verify_authorization :
    P256 → List ℕ → List ℕ → List ℕ → List ℕ → List ℕ → Result SignatureError (Unit {0})
verify_authorization lib key_encoding public_key_der algorithm payload signature_der = do
  refuse (not (text_eq algorithm algorithm_ecdsa_p256_sha256)) (unsupported_algorithm algorithm)
  refuse (not (text_eq key_encoding public_key_ec_p256_spki))
      (unsupported_key_encoding key_encoding)
  key ← ok_or (lib.key_from_der public_key_der) malformed_public_key
  proof ← ok_or (lib.proof_from_der signature_der) malformed_signature
  refuse (not (lib.verifies key payload proof)) invalid
