-- ===== src/Session/Handshake/Completion.antt =====
-- phone-auth-session/src/handshake.rs: a scanned code leads to a session.
use bio_auth.Common.{
  ℕ, ◌≡◌, ◌≤◌, refl, sym, ap, subst, ◌∙◌, List, some, ok, arith, length, none, Bool, ◌||◌, is_empty,
  ltb, false, true, text_eq→eq, ◌∷◌, [],
}
use bio_auth.Common.Int.{ℤ, lebℤ}
use bio_auth.Protocol.Items.{IsText}
use bio_auth.Session.Channel.{KeySchedule, new, client}
use bio_auth.Session.Crypto.{Library, IsLibrary}
use bio_auth.Session.Keys.{derive, kdf_domain, split, verification_code}
use bio_auth.Session.Bootstrap.{ServerBootstrap, validate}
use bio_auth.Session.Handshake.{
  HandshakeOutcome, PeerExpectation, VerifierExpectation, ServerHello, ClientHello, transcript_hash,
}
use bio_auth.Session.Handshake.Server.{PendingServerHandshake, begin, finish}
use bio_auth.Session.Handshake.Client.{respond, intent_of}
use bio_auth.Session.Handshake.Reading.{Fits}
use bio_auth.Session.Handshake.Sizes.{size-envelope, size-server, size-client}
use bio_auth.Session.Handshake.RoundTrip.{hello_of}
use bio_auth.Session.Handshake.Hello.{encode_server_hello, encode_client_hello, envelope}
use bio_auth.Session.Handshake.Outcome.{Begun, begun, binding_of}
use bio_auth.Session.Handshake.Trust.{Trusted, respond_iff}
use bio_auth.Session.Handshake.Agreement.{IsTyped, hello_written, Agree}
use bio_auth.Session.Handshake.Run.{handshake_lem}

-- A bootstrap that passed `validate` has short identifiers.
valid_short :
    (b : ServerBootstrap)
    → validate b ≡ ok tt
    → (length b.session_id ≤ 64) × (length b.verifier_id ≤ 64)
unfolding validate
valid_short b e = (ground arith, ground arith)

named_ok :
    (device_id : List ℕ)
    → 1 ≤ length device_id
    → length device_id ≤ 64
    → (is_empty device_id || ltb 64 (length device_id)) ≡ false
named_ok [] some_id short = absurd (omega arith)
named_ok (x ∷ device_id) some_id short = ground arith

module _ (lib : Library) (laws : IsLibrary lib) where
  derives :
      (secret transcript : List ℕ)
      → (schedule : KeySchedule) × (derive lib secret transcript ≡ ok schedule)
  unfolding derive
  derives secret transcript =
      let (out, e) = laws.expands transcript secret kdf_domain 96 (omega arith) in
      (
        record {
          client_to_server = split out 0;
          server_to_client = split out 1;
          exporter = split out 2;
        },
        rw e refl,
      )

  hello-Fits :
      (b : ServerBootstrap) (desktop : lib.SigningKey) (seed : List ℕ)
      (p : PendingServerHandshake lib) (hello : List ℕ)
      → Begun lib b desktop seed p hello
      → length b.nonce ≡ 32
      → Fits hello
  hello-Fits b desktop seed p hello bg nonce =
      let eph = lib.public_of (lib.secret_from seed) in
      let (s, v) = valid_short b bg.valid in
      let text : p.server_unsigned ≡ encode_server_hello b bg.spki eph =
        ap (λ (q : PendingServerHandshake lib). q.server_unsigned) bg.made in
      let sig = lib.sign desktop p.server_unsigned in
      let inner : length p.server_unsigned ≤ 1400 = omega (
        arith,
        ap length text,
        size-server b bg.spki eph,
        laws.spki_size desktop bg.spki bg.own,
        laws.public_size (lib.secret_from seed),
      ) in
      subst Fits (sym bg.sent) (
        let size = size-envelope p.server_unsigned sig in
        omega (arith, laws.signature_size desktop p.server_unsigned))

  -- The answer of a phone to a hello of that session.
  answer-Fits :
      (b : ServerBootstrap) (phone : lib.SigningKey) (seed device_id key spki : List ℕ) (was : Bool)
      → validate b ≡ ok tt
      → length b.nonce ≡ 32
      → length key ≡ 32
      → length device_id ≤ 64
      → lib.spki_of phone ≡ some spki
      → let unsigned =
          encode_client_hello b.session_id b.nonce b.verifier_id b.expires_at_ms device_id key
            (lib.public_of (lib.secret_from seed))
            spki
            (intent_of was) in
        Fits (envelope unsigned (lib.sign phone unsigned))
  answer-Fits b phone seed device_id key spki was valid nonce size short own =
      let eph = lib.public_of (lib.secret_from seed) in
      let (s, v) = valid_short b valid in
      let unsigned =
        encode_client_hello b.session_id b.nonce b.verifier_id b.expires_at_ms device_id key eph
          spki (intent_of was) in
      let m : ClientHello = record {
        session_id = b.session_id;
        nonce = b.nonce;
        verifier_id = b.verifier_id;
        expires_at_ms = b.expires_at_ms;
        device_id = device_id;
        server_ephemeral = key;
        ephemeral = eph;
        identity_spki = spki;
        intent = none;
      } in
      let inner = size-client m (intent_of was) in
      let outer = size-envelope unsigned (lib.sign phone unsigned) in
      omega (
        arith,
        laws.spki_size phone spki own,
        laws.public_size (lib.secret_from seed),
        laws.signature_size phone unsigned,
      )

  -- Pairing completes: when the desktop began a handshake for a code that is not past its deadline, and a
  -- phone with a device id of 1 to 64 bytes scanned that code, then the phone answers the hello, the
  -- desktop completes with that answer, and both come out with linked channels and one pairing code.
  pub pairing_completes :
      (b : ServerBootstrap) (desktop phone : lib.SigningKey)
      (desktop_seed phone_seed device_id transport spki : List ℕ) (now_ms : ℤ)
      (p : PendingServerHandshake lib) (hello : List ℕ)
      → IsTyped b
      → IsText device_id
      → 1 ≤ length device_id
      → length device_id ≤ 64
      → lebℤ b.expires_at_ms now_ms ≡ false
      → lib.spki_of phone ≡ some spki
      → begin lib b desktop desktop_seed ≡ ok (p, hello)
      → (answer : List ℕ) × (o : HandshakeOutcome lib) × (s : HandshakeOutcome lib) × (respond lib
            hello
            (VerifierExpectation.scanned b)
            device_id
            phone
            transport
            now_ms
            phone_seed
          ≡ ok (answer, o))
        × (finish lib p answer PeerExpectation.pairing transport ≡ ok s)
        × Agree lib b device_id spki s o
  pairing_completes b desktop phone desktop_seed phone_seed device_id transport spki now_ms p hello
        typed named some_id short live own started =
      let bg = begun lib b desktop desktop_seed p hello started in
      let fits = hello-Fits b desktop desktop_seed p hello bg typed.nonce_typed in
      let (opened, read) = hello_written lib laws b desktop desktop_seed p hello bg typed fits in
      let phone_secret = lib.secret_from phone_seed in
      let m : ServerHello = hello_of b bg.spki p.public_key in
      let unsigned =
        encode_client_hello b.session_id b.nonce b.verifier_id b.expires_at_ms device_id
          p.public_key (lib.public_of phone_secret) spki (intent_of true) in
      let (schedule, keys) =
        derives (lib.diffie_hellman phone_secret p.public_key)
          (transcript_hash lib p.server_unsigned unsigned) in
      let answer = envelope unsigned (lib.sign phone unsigned) in
      let size : length p.public_key ≡ 32 =
        ap (λ (q : PendingServerHandshake lib). length q.public_key) bg.made
        ∙ laws.public_size (lib.secret_from desktop_seed) in
      let o : HandshakeOutcome lib = record {
        channel = new lib.aead client schedule (
            binding_of lib transport b.session_id p.public_key (lib.public_of phone_secret)
              schedule);
        peer_identity_spki = bg.spki;
        peer_device_id = b.verifier_id;
        verification_code = verification_code lib schedule.exporter;
        was_pairing = true;
        intent = some (intent_of true);
      } in
      let e = VerifierExpectation.scanned b in
      let trusted : Trusted lib hello e device_id phone transport now_ms phone_seed answer o =
        record {
          unsigned = p.server_unsigned;
          der = lib.sign desktop p.server_unsigned;
          hello = m;
          spki = spki;
          schedule = schedule;
          client_unsigned = unsigned;
          named = named_ok device_id some_id short;
          opened = opened;
          read = read;
          vouched = (
            bg.valid,
            record { session = refl; verifier = refl; nonce = refl; deadline = refl },
            sym (text_eq→eq _ _ bg.committed),
          );
          live = live;
          signed = laws.verifies_own desktop bg.spki bg.own p.server_unsigned;
          own = own;
          written = refl;
          answered = refl;
          keys = keys;
          result = refl;
        } in
      let answered =
        (respond_iff lib hello e device_id phone transport now_ms phone_seed answer o).1 trusted in
      let (s, done, agree) =
        handshake_lem lib laws b desktop phone desktop_seed phone_seed device_id transport spki
          now_ms p hello answer e o PeerExpectation.pairing typed named started answered
          (answer-Fits b phone phone_seed device_id p.public_key spki true bg.valid
            typed.nonce_typed size short own)
          own tt in
      (answer, o, s, answered, done, agree)
