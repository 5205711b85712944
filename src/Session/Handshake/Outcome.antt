-- ===== src/Session/Handshake/Outcome.antt =====
-- What the steps of phone-auth-session/src/handshake.rs went through when they succeed.
use bio_auth.Common.{
  ℕ, ◌≡◌, ◌↔◌, refl, sym, ap, List, Bool, true, false, ◌||◌, not, Option, some, none, Result, ok,
  arith, length, >>=-eq-ok, refuse, refuse-ok, is_empty, ltb, text_eq,
}
use bio_auth.Common.Int.{ℤ, lebℤ}
use bio_auth.Verifier.Signature.{ok_or}
use bio_auth.Session.Channel.{
  SessionError, KeySchedule, new, server, client, identity_key, signature, invalid_bootstrap,
}
use bio_auth.Session.Crypto.{Library, public_key_spki, verify, hash_identity}
use bio_auth.Session.Keys.{derive, session_binding, verification_code}
use bio_auth.Session.Bootstrap.{ServerBootstrap, validate}
use bio_auth.Session.Handshake.{
  HandshakeOutcome, PeerExpectation, VerifierExpectation, ServerHello, ClientHello, transcript_hash,
}
use bio_auth.Session.Handshake.Hello.{
  encode_server_hello, encode_client_hello, envelope, decode_envelope, decode_server_hello,
  decode_client_hello,
}
use bio_auth.Session.Handshake.Server.{PendingServerHandshake, begin, finish, echoes, check_peer}
use bio_auth.Session.Handshake.Client.{respond, check_verifier, intent_of}

ok_or-eq-ok : {A E : Type 0} (o : Option A) (e : E) {a : A} → ok_or o e ≡ ok a → o ≡ some a
ok_or-eq-ok none e h = cc
ok_or-eq-ok (some x) e h = ground arith

ok-inj : {A : Type 0} (a b : A) → ◌≡◌ {A = Result SessionError A} (ok a) (ok b) → a ≡ b
ok-inj a b h = ground arith

module _ (lib : Library) where
  pub record Begun (b : ServerBootstrap) (identity : lib.SigningKey) (seed : List ℕ)
      (p : PendingServerHandshake lib) (hello : List ℕ) : Type 0 where
    pub spki : List ℕ
    pub valid : validate b ≡ ok tt
    pub own : lib.spki_of identity ≡ some spki
    pub committed : text_eq b.verifier_identity_hash (hash_identity lib spki) ≡ true
    pub made : p ≡ record {
      bootstrap = b;
      secret = lib.secret_from seed;
      public_key = lib.public_of (lib.secret_from seed);
      server_unsigned = encode_server_hello b spki (lib.public_of (lib.secret_from seed));
    }
    pub sent : hello ≡ envelope p.server_unsigned (lib.sign identity p.server_unsigned)

  pub begun :
      (b : ServerBootstrap) (identity : lib.SigningKey) (seed : List ℕ)
      (p : PendingServerHandshake lib) (hello : List ℕ)
      → begin lib b identity seed ≡ ok (p, hello)
      → Begun b identity seed p hello
  unfolding begin public_key_spki
  begun b identity seed p hello e =
      let (u, valid, e1) = >>=-eq-ok (validate b) _ e in
      let (spki, own, e2) = >>=-eq-ok (ok_or (lib.spki_of identity) identity_key) _ e1 in
      let (v, committed, e3) =
        >>=-eq-ok
          (refuse (not (text_eq b.verifier_identity_hash (hash_identity lib spki)))
            (invalid_bootstrap "bootstrap does not commit to this identity key"))
          _ e2 in
      record {
        spki = spki;
        valid = valid;
        own = ok_or-eq-ok (lib.spki_of identity) identity_key own;
        committed = ground (arith, committed);
        made = ground arith;
        sent = ground arith;
      }

  abbrev pub Verified : List ℕ → List ℕ → List ℕ → Type 0
  Verified spki message der =
      (key : lib.p256.Key) × (proof : lib.p256.Proof) × (lib.p256.key_from_der spki ≡ some key)
      × (lib.p256.proof_from_der der ≡ some proof)
      × (lib.p256.verifies key message proof ≡ true)

  pub verify_iff :
      (spki message der : List ℕ)
      → (verify lib spki message der ≡ ok tt) ↔ Verified spki message der
  unfolding verify
  verify_iff spki message der = (
    λ e.
        let (key, k, e1) = >>=-eq-ok (ok_or (lib.p256.key_from_der spki) identity_key) _ e in
        let (proof, p, e2) = >>=-eq-ok (ok_or (lib.p256.proof_from_der der) signature) _ e1 in
        (
          key,
          proof,
          ok_or-eq-ok (lib.p256.key_from_der spki) identity_key k,
          ok_or-eq-ok (lib.p256.proof_from_der der) signature p,
          ground arith,
        ),
    λ (key, proof, k, p, v). rw (k, p, v) refl,
  )

  abbrev pub binding_of : List ℕ → List ℕ → List ℕ → List ℕ → KeySchedule → List ℕ
  binding_of transport session_id server_ephemeral client_ephemeral schedule =
      session_binding lib (record {
        transport_name = transport;
        session_id = session_id;
        server_ephemeral = server_ephemeral;
        client_ephemeral = client_ephemeral;
        exporter = schedule.exporter;
      })

  pub record Finished (p : PendingServerHandshake lib) (frame : List ℕ) (e : PeerExpectation)
      (transport : List ℕ) (o : HandshakeOutcome lib) : Type 0 where
    pub unsigned : List ℕ
    pub der : List ℕ
    pub hello : ClientHello
    pub was_pairing : Bool
    pub schedule : KeySchedule
    pub opened : decode_envelope frame ≡ ok (unsigned, der)
    pub read : decode_client_hello unsigned ≡ ok hello
    pub echoed : echoes lib p hello ≡ true
    pub expected : check_peer lib e hello ≡ ok was_pairing
    pub signed : verify lib hello.identity_spki unsigned der ≡ ok tt
    pub keys :
        derive lib
          (lib.diffie_hellman p.secret hello.ephemeral)
          (transcript_hash lib p.server_unsigned unsigned)
        ≡ ok schedule
    pub result : o ≡ record {
      channel =
          new lib.aead server schedule
            (binding_of transport p.bootstrap.session_id p.public_key hello.ephemeral schedule);
      peer_identity_spki = hello.identity_spki;
      peer_device_id = hello.device_id;
      verification_code = verification_code lib schedule.exporter;
      was_pairing = was_pairing;
      intent = hello.intent;
    }

  pub finished :
      (p : PendingServerHandshake lib) (frame : List ℕ) (e : PeerExpectation) (transport : List ℕ)
      (o : HandshakeOutcome lib)
      → finish lib p frame e transport ≡ ok o
      → Finished p frame e transport o
  unfolding finish
  finished p frame e transport o h =
      let ((unsigned, der), opened, h1) = >>=-eq-ok (decode_envelope frame) _ h in
      let (hello, read, h2) = >>=-eq-ok (decode_client_hello unsigned) _ h1 in
      let (u, echoed, h3) =
        >>=-eq-ok (refuse (not (echoes lib p hello)) SessionError.peer_mismatch) _ h2 in
      let (was, expected, h4) = >>=-eq-ok (check_peer lib e hello) _ h3 in
      let (v, signed, h5) = >>=-eq-ok (verify lib hello.identity_spki unsigned der) _ h4 in
      let (schedule, keys, h6) =
        >>=-eq-ok
          (derive lib (lib.diffie_hellman p.secret hello.ephemeral)
            (transcript_hash lib p.server_unsigned unsigned))
          _ h5 in
      record {
        unsigned = unsigned;
        der = der;
        hello = hello;
        was_pairing = was;
        schedule = schedule;
        opened = opened;
        read = read;
        echoed = ground (arith, echoed);
        expected = expected;
        signed = signed;
        keys = keys;
        result = sym (ok-inj _ _ h6);
      }

  pub record Responded (frame : List ℕ) (e : VerifierExpectation) (device_id : List ℕ)
      (identity : lib.SigningKey) (transport : List ℕ) (now_ms : ℤ) (seed answer : List ℕ)
      (o : HandshakeOutcome lib) : Type 0 where
    pub unsigned : List ℕ
    pub der : List ℕ
    pub hello : ServerHello
    pub was_pairing : Bool
    pub spki : List ℕ
    pub schedule : KeySchedule
    pub named : (is_empty device_id || ltb 64 (length device_id)) ≡ false
    pub opened : decode_envelope frame ≡ ok (unsigned, der)
    pub read : decode_server_hello unsigned ≡ ok hello
    pub expected : check_verifier lib e hello ≡ ok was_pairing
    pub live : lebℤ hello.expires_at_ms now_ms ≡ false
    pub signed : verify lib hello.identity_spki unsigned der ≡ ok tt
    pub own : lib.spki_of identity ≡ some spki
    pub client_unsigned : List ℕ
    pub written :
        client_unsigned
        ≡ encode_client_hello hello.session_id hello.nonce hello.verifier_id hello.expires_at_ms
            device_id hello.ephemeral
            (lib.public_of (lib.secret_from seed))
            spki
            (intent_of was_pairing)
    pub answered : answer ≡ envelope client_unsigned (lib.sign identity client_unsigned)
    pub keys :
        derive lib
          (lib.diffie_hellman (lib.secret_from seed) hello.ephemeral)
          (transcript_hash lib unsigned client_unsigned)
        ≡ ok schedule
    pub result : o ≡ record {
      channel = new lib.aead client schedule (
          binding_of transport hello.session_id hello.ephemeral
            (lib.public_of (lib.secret_from seed))
            schedule);
      peer_identity_spki = hello.identity_spki;
      peer_device_id = hello.verifier_id;
      verification_code = verification_code lib schedule.exporter;
      was_pairing = was_pairing;
      intent = some (intent_of was_pairing);
    }

  pub responded :
      (frame : List ℕ) (e : VerifierExpectation) (device_id : List ℕ) (identity : lib.SigningKey)
      (transport : List ℕ) (now_ms : ℤ) (seed answer : List ℕ) (o : HandshakeOutcome lib)
      → respond lib frame e device_id identity transport now_ms seed ≡ ok (answer, o)
      → Responded frame e device_id identity transport now_ms seed answer o
  unfolding respond public_key_spki
  responded frame e device_id identity transport now_ms seed answer o h =
      let (u, named, h0) =
        >>=-eq-ok
          (refuse (is_empty device_id || ltb 64 (length device_id))
            (SessionError.invalid_frame "invalid device identifier"))
          _ h in
      let ((unsigned, der), opened, h1) = >>=-eq-ok (decode_envelope frame) _ h0 in
      let (hello, read, h2) = >>=-eq-ok (decode_server_hello unsigned) _ h1 in
      let (was, expected, h3) = >>=-eq-ok (check_verifier lib e hello) _ h2 in
      let (v, live, h4) =
        >>=-eq-ok (refuse (lebℤ hello.expires_at_ms now_ms) SessionError.bootstrap_expired) _ h3 in
      let (w, signed, h5) = >>=-eq-ok (verify lib hello.identity_spki unsigned der) _ h4 in
      let (spki, own, h6) = >>=-eq-ok (ok_or (lib.spki_of identity) identity_key) _ h5 in
      let out =
        encode_client_hello hello.session_id hello.nonce hello.verifier_id hello.expires_at_ms
          device_id hello.ephemeral (lib.public_of (lib.secret_from seed)) spki (intent_of was) in
      let (schedule, keys, h7) =
        >>=-eq-ok
          (derive lib (lib.diffie_hellman (lib.secret_from seed) hello.ephemeral)
            (transcript_hash lib unsigned out))
          _ h6 in
      record {
        unsigned = unsigned;
        der = der;
        hello = hello;
        was_pairing = was;
        spki = spki;
        schedule = schedule;
        named = refuse-ok _ (SessionError.invalid_frame "invalid device identifier") named;
        opened = opened;
        read = read;
        expected = expected;
        live = refuse-ok _ SessionError.bootstrap_expired live;
        signed = signed;
        own = ok_or-eq-ok (lib.spki_of identity) identity_key own;
        client_unsigned = out;
        written = refl;
        answered = sym (ap (λ (z : List ℕ × HandshakeOutcome lib). z.0) (ok-inj _ _ h7));
        keys = keys;
        result = sym (ap (λ (z : List ℕ × HandshakeOutcome lib). z.1) (ok-inj _ _ h7));
      }
