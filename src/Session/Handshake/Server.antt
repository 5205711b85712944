-- ===== src/Session/Handshake/Server.antt =====
-- `PendingServerHandshake` of phone-auth-session/src/handshake.rs.
use bio_auth.Common.{
  ℕ, List, Bool, true, false, ◌||◌, ◌&&◌, Result, ok, ◌>>=◌, ◌>>◌, refuse, not, text_eq,
}
use bio_auth.Common.Int.{eqℤ}
use bio_auth.Session.Channel.{SessionError, invalid_bootstrap, peer_mismatch, server, new}
use bio_auth.Session.Crypto.{Library, public_key_spki, hash_identity, verify}
use bio_auth.Session.Keys.{derive, session_binding, verification_code}
use bio_auth.Session.Bootstrap.{ServerBootstrap, validate}
use bio_auth.Session.Handshake.{PeerExpectation, HandshakeOutcome, ClientHello, transcript_hash}
use bio_auth.Session.Handshake.Hello.{
  encode_server_hello, envelope, decode_envelope, decode_client_hello,
}

module _ (lib : Library) where
  pub record PendingServerHandshake : Type 0 where
    pub bootstrap : ServerBootstrap
    pub secret : lib.Secret
    pub public_key : List ℕ
    pub server_unsigned : List ℕ

  -- `seed` is what `ephemeral_secret` draws.
  unfoldable pub begin :
      ServerBootstrap
      → lib.SigningKey
      → List ℕ
      → Result SessionError (PendingServerHandshake × List ℕ)
  begin bootstrap identity seed = do
    validate bootstrap
    identity_spki ← public_key_spki lib identity
    refuse (not (text_eq bootstrap.verifier_identity_hash (hash_identity lib identity_spki)))
        (invalid_bootstrap "bootstrap does not commit to this identity key")
    let secret = lib.secret_from seed
    let public_key = lib.public_of secret
    let server_unsigned = encode_server_hello bootstrap identity_spki public_key
    ok (
      record {
        bootstrap = bootstrap;
        secret = secret;
        public_key = public_key;
        server_unsigned = server_unsigned;
      },
      envelope server_unsigned (lib.sign identity server_unsigned),
    )

  -- The client must echo this handshake.
  unfoldable pub echoes : PendingServerHandshake → ClientHello → Bool
  echoes p client =
      text_eq client.session_id p.bootstrap.session_id
      && text_eq client.verifier_id p.bootstrap.verifier_id
      && text_eq client.nonce p.bootstrap.nonce
      && eqℤ client.expires_at_ms p.bootstrap.expires_at_ms
      && text_eq client.server_ephemeral p.public_key

  -- `was_pairing`, or a peer that is not the expected one.
  unfoldable pub check_peer : PeerExpectation → ClientHello → Result SessionError Bool
  check_peer (PeerExpectation.paired device_id identity_spki) client = do
    refuse
        (not (text_eq client.device_id device_id)
          || not (text_eq client.identity_spki identity_spki))
        peer_mismatch
    ok false
  check_peer PeerExpectation.pairing client = ok true

  unfoldable pub finish :
      PendingServerHandshake
      → List ℕ
      → PeerExpectation
      → List ℕ
      → Result SessionError (HandshakeOutcome lib)
  finish p client_frame expectation transport_name = do
    (client_unsigned, signature) ← decode_envelope client_frame
    client ← decode_client_hello client_unsigned
    refuse (not (echoes p client)) peer_mismatch
    was_pairing ← check_peer expectation client
    verify lib client.identity_spki client_unsigned signature
    let shared_secret = lib.diffie_hellman p.secret client.ephemeral
    let transcript = transcript_hash lib p.server_unsigned client_unsigned
    schedule ← derive lib shared_secret transcript
    let binding = session_binding lib (record {
      transport_name = transport_name;
      session_id = p.bootstrap.session_id;
      server_ephemeral = p.public_key;
      client_ephemeral = client.ephemeral;
      exporter = schedule.exporter;
    })
    ok (record {
      channel = new lib.aead server schedule binding;
      peer_identity_spki = client.identity_spki;
      peer_device_id = client.device_id;
      verification_code = verification_code lib schedule.exporter;
      was_pairing = was_pairing;
      intent = client.intent;
    })
