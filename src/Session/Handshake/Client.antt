-- ===== src/Session/Handshake/Client.antt =====
-- `ClientHandshake::respond` of phone-auth-session/src/handshake.rs.
use bio_auth.Common.{
  ℕ, List, Bool, true, false, ◌||◌, ◌&&◌, Result, ok, ◌>>=◌, ◌>>◌, refuse, not, text_eq, some,
  is_empty, ltb, length, if◌then◌else◌,
}
use bio_auth.Common.Int.{ℤ, eqℤ, lebℤ}
use bio_auth.Session.Channel.{
  SessionError, invalid_frame, peer_mismatch, verifier_identity_mismatch, bootstrap_expired, client,
  new,
}
use bio_auth.Session.Crypto.{Library, public_key_spki, hash_identity, verify}
use bio_auth.Session.Keys.{derive, session_binding, verification_code}
use bio_auth.Session.Bootstrap.{ServerBootstrap, validate}
use bio_auth.Session.Handshake.{
  VerifierExpectation, HandshakeOutcome, ServerHello, PairingIntent, pair, resume, transcript_hash,
}
use bio_auth.Session.Handshake.Hello.{
  decode_server_hello, encode_client_hello, envelope, decode_envelope,
}

abbrev pub intent_of : Bool → PairingIntent
intent_of was_pairing = if was_pairing then pair else resume

-- The hello must match the scanned code.
unfoldable pub matches : ServerHello → ServerBootstrap → Bool
matches hello bootstrap =
    text_eq hello.session_id bootstrap.session_id
    && text_eq hello.verifier_id bootstrap.verifier_id
    && text_eq hello.nonce bootstrap.nonce
    && eqℤ hello.expires_at_ms bootstrap.expires_at_ms

module _ (lib : Library) where
  -- `was_pairing`, or a verifier that is not the expected one.
  unfoldable pub check_verifier : VerifierExpectation → ServerHello → Result SessionError Bool
  check_verifier (VerifierExpectation.paired identity_spki) hello = do
    refuse (not (text_eq hello.identity_spki identity_spki)) peer_mismatch
    ok false
  check_verifier (VerifierExpectation.scanned bootstrap) hello = do
    validate bootstrap
    refuse (not (matches hello bootstrap)) peer_mismatch
    refuse (not (text_eq (hash_identity lib hello.identity_spki) bootstrap.verifier_identity_hash))
        verifier_identity_mismatch
    ok true

  unfoldable pub respond :
      List ℕ
      → VerifierExpectation
      → List ℕ
      → lib.SigningKey
      → List ℕ
      → ℤ
      → List ℕ
      → Result SessionError (List ℕ × HandshakeOutcome lib)
  respond server_frame expectation device_id identity transport_name now_ms seed = do
    refuse (is_empty device_id || ltb 64 (length device_id))
        (invalid_frame "invalid device identifier")
    (server_unsigned, signature) ← decode_envelope server_frame
    hello ← decode_server_hello server_unsigned
    was_pairing ← check_verifier expectation hello
    refuse (lebℤ hello.expires_at_ms now_ms) bootstrap_expired
    verify lib hello.identity_spki server_unsigned signature
    let secret = lib.secret_from seed
    let public_key = lib.public_of secret
    identity_spki ← public_key_spki lib identity
    let client_unsigned =
        encode_client_hello hello.session_id hello.nonce hello.verifier_id hello.expires_at_ms
          device_id hello.ephemeral public_key identity_spki (intent_of was_pairing)
    let client_frame = envelope client_unsigned (lib.sign identity client_unsigned)
    let shared_secret = lib.diffie_hellman secret hello.ephemeral
    let transcript = transcript_hash lib server_unsigned client_unsigned
    schedule ← derive lib shared_secret transcript
    let binding = session_binding lib (record {
      transport_name = transport_name;
      session_id = hello.session_id;
      server_ephemeral = hello.ephemeral;
      client_ephemeral = public_key;
      exporter = schedule.exporter;
    })
    ok (
      client_frame,
      record {
        channel = new lib.aead client schedule binding;
        peer_identity_spki = hello.identity_spki;
        peer_device_id = hello.verifier_id;
        verification_code = verification_code lib schedule.exporter;
        was_pairing = was_pairing;
        intent = some (intent_of was_pairing);
      },
    )
