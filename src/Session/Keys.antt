-- ===== src/Session/Keys.antt =====
-- phone-auth-session/src/keys.rs: the key schedule, the session binding and the pairing code.
pub mod Injective
use bio_auth.Common.{
  ℕ, zero, suc, ◌+◌, ◌*◌, ◌/◌, ◌%◌, ◌^◌, List, [], ◌∷◌, ◌++◌, Result, ok, ◌>>=◌, take, drop, length,
  str,
}
use bio_auth.Common.Bytes.{to_be, from_be}
use bio_auth.Verifier.Signature.{ok_or}
use bio_auth.Session.Channel.{SessionError, KeySchedule, kdf}
use bio_auth.Session.Crypto.{Library}

abbrev pub key_len : ℕ
key_len = 32

abbrev pub kdf_domain : List ℕ
kdf_domain = str "PhoneAuth/secure-session/v1"

abbrev pub binding_domain : List ℕ
binding_domain = str "PhoneAuth/session-binding/v1"

abbrev pub verification_domain : List ℕ
verification_domain = str "PhoneAuth/pairing-verification/v1"

abbrev pub verification_code_digits : ℕ
verification_code_digits = 6

unfoldable pub split : List ℕ → ℕ → List ℕ
split material index = take key_len (drop (index * key_len) material)

pub record SessionBindingInputs : Type 0 where
  pub transport_name : List ℕ
  pub session_id : List ℕ
  pub server_ephemeral : List ℕ
  pub client_ephemeral : List ℕ
  pub exporter : List ℕ

-- The hasher's input in the loops of `session_binding` and `transcript_hash`: each field behind its
-- length, a `u64`.
unfoldable pub prefixed : List (List ℕ) → List ℕ
prefixed [] = []
prefixed (field ∷ fields) = to_be 8 (length field) ++ (field ++ prefixed fields)

abbrev pub binding_fields : SessionBindingInputs → List (List ℕ)
binding_fields inputs =
    inputs.transport_name ∷ inputs.session_id ∷ inputs.server_ephemeral ∷ inputs.client_ephemeral
    ∷ inputs.exporter ∷ []

-- `{:0width$}` of a number below `10 ^ width`.
unfoldable pub decimal : ℕ → ℕ → List ℕ
decimal zero value = []
decimal (suc width) value = decimal width (value / 10) ++ (b'0' + value % 10) ∷ []

module _ (lib : Library) where
  unfoldable pub derive : List ℕ → List ℕ → Result SessionError KeySchedule
  derive shared_secret transcript_hash = do
    material ← ok_or (lib.hkdf transcript_hash shared_secret kdf_domain (key_len * 3)) kdf
    ok (record {
      client_to_server = split material 0;
      server_to_client = split material 1;
      exporter = split material 2;
    })

  unfoldable pub session_binding : SessionBindingInputs → List ℕ
  session_binding inputs = lib.sha256 (binding_domain ++ prefixed (binding_fields inputs))

  unfoldable pub verification_code : List ℕ → List ℕ
  verification_code exporter =
      let digest = lib.sha256 (verification_domain ++ exporter) in
      decimal verification_code_digits (from_be 0 (take 4 digest) % 10 ^ verification_code_digits)
