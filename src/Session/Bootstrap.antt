-- ===== src/Session/Bootstrap.antt =====
-- phone-auth-session/src/bootstrap.rs: what the scanned code says.
use bio_auth.Common.{
  ℕ, List, Bool, ◌||◌, Result, ok, ◌>>=◌, ◌>>◌, refuse, ltb, ◌==◌, length, is_empty, any,
  if◌then◌else◌,
}
use bio_auth.Common.Int.{ℤ, pos, lebℤ, saturating_add}
use bio_auth.Protocol.Enrolment.{CredentialPurpose}
use bio_auth.Session.Channel.{SessionError, invalid_bootstrap}
use bio_auth.Session.Crypto.{Library, public_key_hash}

pub record ServerBootstrap : Type 0 where
  pub session_id : List ℕ
  pub nonce : List ℕ
  pub verifier_id : List ℕ
  pub verifier_identity_hash : List ℕ
  pub endpoint : List ℕ
  pub expires_at_ms : ℤ
  pub purpose : CredentialPurpose

-- `field.contains('&') || field.contains('=')`.
abbrev pub has_separator : List ℕ → Bool
has_separator field = any (λ c. c == b'&') field || any (λ c. c == b'=') field

unfoldable pub validate : ServerBootstrap → Result SessionError (Unit {0})
validate b = do
  refuse (is_empty b.session_id || ltb 64 (length b.session_id))
      (invalid_bootstrap "invalid session identifier")
  refuse (is_empty b.verifier_id || ltb 64 (length b.verifier_id))
      (invalid_bootstrap "invalid verifier identifier")
  refuse (ltb 128 (length b.endpoint)) (invalid_bootstrap "endpoint is too long")
  refuse (has_separator b.session_id || has_separator b.verifier_id || has_separator b.endpoint)
      (invalid_bootstrap "bootstrap fields may not contain `&` or `=`")

unfoldable pub is_expired_at : ServerBootstrap → ℤ → Bool
is_expired_at b now_ms = lebℤ b.expires_at_ms now_ms

abbrev at_least_one : ℤ → ℤ
at_least_one lifetime_ms = if lebℤ lifetime_ms (pos 0) then pos 1 else lifetime_ms

module _ (lib : Library) where
  -- `nonce` is what the operating system drew.
  unfoldable pub for_purpose :
      List ℕ
      → List ℕ
      → List ℕ
      → lib.SigningKey
      → ℤ
      → ℤ
      → CredentialPurpose
      → List ℕ
      → Result SessionError ServerBootstrap
  for_purpose session_id verifier_id endpoint identity now_ms lifetime_ms purpose nonce = do
    hash ← public_key_hash lib identity
    let bootstrap : ServerBootstrap = record {
      session_id = session_id;
      nonce = nonce;
      verifier_id = verifier_id;
      verifier_identity_hash = hash;
      endpoint = endpoint;
      expires_at_ms = saturating_add now_ms (at_least_one lifetime_ms);
      purpose = purpose;
    }
    validate bootstrap
    ok bootstrap
