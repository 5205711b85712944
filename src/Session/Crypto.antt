-- ===== src/Session/Crypto.antt =====
-- The cryptographic libraries that phone-auth-session/src calls, as a parameter, and identity.rs over
-- them. Randomness is an argument of the functions that draw it.
use bio_auth.Common.{
  ℕ, ◌≡◌, ◌≤◌, ◌++◌, List, Option, some, Result, ok, ◌>>=◌, refuse, not, length, true, str,
}
use bio_auth.Verifier.Signature.{P256, ok_or}
use bio_auth.Session.Channel.{Aead, SessionError, identity_key, signature}

-- `Sha256::digest`; `Hkdf::new(salt, secret).expand(info, n)`; X25519; the P-256 signing key, its public
-- half as SPKI DER, and `sign` with the DER of the signature; the P-256 verifying side; the cipher.
pub record Library : Type 1 where
  pub sha256 : List ℕ → List ℕ
  pub hkdf : List ℕ → List ℕ → List ℕ → ℕ → Option (List ℕ)
  pub Secret : Type 0
  pub secret_from : List ℕ → Secret
  pub public_of : Secret → List ℕ
  pub diffie_hellman : Secret → List ℕ → List ℕ
  pub SigningKey : Type 0
  pub spki_of : SigningKey → Option (List ℕ)
  pub sign : SigningKey → List ℕ → List ℕ
  pub p256 : P256
  pub aead : Aead

-- What the libraries promise: the sizes of keys and signatures in DER, that both ends of X25519 get one
-- secret, that HKDF gives up to 255 blocks, and that a signature
-- verifies under the public half of the key that made it.
pub record IsLibrary (lib : Library) : Type 0 where
  pub public_size : (s : lib.Secret) → length (lib.public_of s) ≡ 32
  pub shared :
      (a b : lib.Secret)
      → lib.diffie_hellman a (lib.public_of b) ≡ lib.diffie_hellman b (lib.public_of a)
  pub spki_size : (k : lib.SigningKey) (der : List ℕ) → lib.spki_of k ≡ some der → length der ≤ 1024
  pub signature_size : (k : lib.SigningKey) (m : List ℕ) → length (lib.sign k m) ≤ 1024
  pub expands :
      (salt secret info : List ℕ) (n : ℕ)
      → n ≤ 8160
      → (out : List ℕ) × (lib.hkdf salt secret info n ≡ some out)
  pub verifies_own :
      (k : lib.SigningKey) (der : List ℕ)
      → lib.spki_of k ≡ some der
      → (m : List ℕ)
      → (key : lib.p256.Key) × (proof : lib.p256.Proof) × (lib.p256.key_from_der der ≡ some key)
        × (lib.p256.proof_from_der (lib.sign k m) ≡ some proof)
        × (lib.p256.verifies key m proof ≡ true)

module _ (lib : Library) where
  unfoldable pub public_key_spki : lib.SigningKey → Result SessionError (List ℕ)
  public_key_spki key = ok_or (lib.spki_of key) identity_key

  unfoldable pub hash_identity : List ℕ → List ℕ
  hash_identity spki = lib.sha256 (str "PhoneAuth/identity/v1" ++ spki)

  unfoldable pub public_key_hash : lib.SigningKey → Result SessionError (List ℕ)
  public_key_hash key = do spki ← public_key_spki key; ok (hash_identity spki)

  unfoldable pub verify : List ℕ → List ℕ → List ℕ → Result SessionError (Unit {0})
  verify spki message der = do
    key ← ok_or (lib.p256.key_from_der spki) identity_key
    proof ← ok_or (lib.p256.proof_from_der der) signature
    refuse (not (lib.p256.verifies key message proof)) signature
