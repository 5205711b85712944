-- ===== src/Session/Handshake/Agreement.antt =====
-- The two ends of phone-auth-session/src/handshake.rs in one honest run.
use bio_auth.Common.{
  ℕ, ◌≡◌, refl, sym, ap, subst, ◌∙◌, List, some, ok, arith, length, none, Result, Bool,
}
use bio_auth.Common.Int.{IsI64}
use bio_auth.Protocol.Items.{IsText}
use bio_auth.Session.Channel.{KeySchedule, new, server, client}
use bio_auth.Session.Channel.Link.{Linked}
use bio_auth.Session.Crypto.{Library, IsLibrary}
use bio_auth.Session.Keys.{verification_code}
use bio_auth.Session.Bootstrap.{ServerBootstrap}
use bio_auth.Session.Handshake.{HandshakeOutcome, PeerExpectation, ServerHello, ClientHello}
use bio_auth.Session.Handshake.Hello.{
  encode_server_hello, envelope, decode_envelope, decode_server_hello, decode_client_hello,
}
use bio_auth.Session.Handshake.Server.{PendingServerHandshake}
use bio_auth.Session.Handshake.Client.{intent_of}
use bio_auth.Session.Handshake.Reading.{Fits, decode_envelope-envelope, decode_envelope_size}
use bio_auth.Session.Handshake.RoundTrip.{
  IsTypedServer, hello_of, decode_server-encode, IsTypedClient, encode_of, decode_client-encode,
}
use bio_auth.Session.Handshake.Sizes.{length-envelope, length-server, length-client}
use bio_auth.Session.Handshake.Outcome.{binding_of, Begun}

-- What the types of the source say of a bootstrap.
pub record IsTyped (b : ServerBootstrap) : Type 0 where
  pub session_id_typed : IsText b.session_id
  pub nonce_typed : length b.nonce ≡ 32
  pub verifier_id_typed : IsText b.verifier_id
  pub expires_at_ms_typed : IsI64 b.expires_at_ms

-- The desktop expects this phone, or is pairing.
abbrev pub Admits : PeerExpectation → List ℕ → List ℕ → Type 0
Admits (PeerExpectation.paired device_id spki) own_id own_spki =
    (own_id ≡ device_id) × (own_spki ≡ spki)
Admits PeerExpectation.pairing own_id own_spki = Unit

ok-eq : {E A : Type 0} {r : Result E A} (a b : A) → r ≡ ok a → r ≡ ok b → a ≡ b
ok-eq a b h k = ground arith

module _ (lib : Library) where
  -- What both ends of an honest run come out with.
  pub record Agree (b : ServerBootstrap) (device_id spki : List ℕ) (s o : HandshakeOutcome lib)
      : Type 0 where
    pub down : Linked lib.aead s.channel o.channel
    pub up : Linked lib.aead o.channel s.channel
    pub code : s.verification_code ≡ o.verification_code
    pub intent : s.intent ≡ o.intent
    pub phone : s.peer_device_id ≡ device_id
    pub phone_key : s.peer_identity_spki ≡ spki
    pub desktop : o.peer_device_id ≡ b.verifier_id

module _ (lib : Library) (laws : IsLibrary lib) where
  -- The phone reads the hello that the desktop wrote.
  pub hello_written :
      (b : ServerBootstrap) (desktop : lib.SigningKey) (seed : List ℕ)
      (p : PendingServerHandshake lib) (hello : List ℕ) (bg : Begun lib b desktop seed p hello)
      → IsTyped b
      → Fits hello
      → (decode_envelope hello ≡ ok (p.server_unsigned, lib.sign desktop p.server_unsigned))
        × (decode_server_hello p.server_unsigned ≡ ok (hello_of b bg.spki p.public_key))
  hello_written b desktop seed p hello bg typed fits =
      let sig = lib.sign desktop p.server_unsigned in
      let whole : Fits (envelope p.server_unsigned sig) = subst Fits bg.sent fits in
      let parts = length-envelope p.server_unsigned sig in
      let key : p.public_key ≡ lib.public_of (lib.secret_from seed) =
        ap (λ (q : PendingServerHandshake lib). q.public_key) bg.made in
      let text : p.server_unsigned ≡ encode_server_hello b bg.spki p.public_key =
        ap (λ (q : PendingServerHandshake lib). q.server_unsigned) bg.made
        ∙ ap (encode_server_hello b bg.spki) (sym key) in
      let size = length-server b bg.spki p.public_key in
      let long = ap length text in
      let wire : IsTypedServer (hello_of b bg.spki p.public_key) = record {
        session_id_typed = typed.session_id_typed;
        nonce_typed = typed.nonce_typed;
        verifier_id_typed = typed.verifier_id_typed;
        expires_at_ms_typed = typed.expires_at_ms_typed;
        identity_spki_typed = omega arith;
        ephemeral_typed = ap length key ∙ laws.public_size (lib.secret_from seed);
      } in
      (
        rw bg.sent
            (decode_envelope-envelope p.server_unsigned sig (omega arith) (omega arith) whole),
        ap decode_server_hello text
            ∙ decode_server-encode b bg.spki p.public_key wire (omega arith),
      )

  pub hello_read :
      (b : ServerBootstrap) (desktop : lib.SigningKey) (seed : List ℕ)
      (p : PendingServerHandshake lib) (hello unsigned der : List ℕ) (m : ServerHello)
      (bg : Begun lib b desktop seed p hello)
      → IsTyped b
      → decode_envelope hello ≡ ok (unsigned, der)
      → decode_server_hello unsigned ≡ ok m
      → (unsigned ≡ p.server_unsigned) × (m ≡ hello_of b bg.spki p.public_key)
  hello_read b desktop seed p hello unsigned der m bg typed opened read =
      let (again, known) =
        hello_written b desktop seed p hello bg typed (decode_envelope_size hello opened) in
      let same : unsigned ≡ p.server_unsigned =
        ap (λ (x : List ℕ × List ℕ). x.0)
          (ok-eq (unsigned, der) (p.server_unsigned, lib.sign desktop p.server_unsigned) opened
            again) in
      (
        same,
        ok-eq m (hello_of b bg.spki p.public_key) (ap decode_server_hello (sym same) ∙ read) known,
      )

  -- What the phone says of itself in its hello.
  abbrev pub client_of : PendingServerHandshake lib → List ℕ → List ℕ → List ℕ → ClientHello
  client_of p device_id ephemeral spki = record {
    session_id = p.bootstrap.session_id;
    nonce = p.bootstrap.nonce;
    verifier_id = p.bootstrap.verifier_id;
    expires_at_ms = p.bootstrap.expires_at_ms;
    device_id = device_id;
    server_ephemeral = p.public_key;
    ephemeral = ephemeral;
    identity_spki = spki;
    intent = none;
  }

  -- The desktop reads the hello that the phone wrote.
  pub answer_read :
      (p : PendingServerHandshake lib) (device_id spki : List ℕ) (phone : lib.SigningKey)
      (secret : lib.Secret) (was : Bool) (unsigned answer : List ℕ)
      → IsTyped p.bootstrap
      → length p.public_key ≡ 32
      → IsText device_id
      → unsigned ≡ encode_of (client_of p device_id (lib.public_of secret) spki) (intent_of was)
      → answer ≡ envelope unsigned (lib.sign phone unsigned)
      → Fits answer
      → (decode_envelope answer ≡ ok (unsigned, lib.sign phone unsigned))
        × (decode_client_hello unsigned
            ≡ ok (record (client_of p device_id (lib.public_of secret) spki) {
              intent = some (intent_of was);
            }))
  answer_read p device_id spki phone secret was unsigned answer typed key named written sent fits =
      let whole : Fits (envelope unsigned (lib.sign phone unsigned)) = subst Fits sent fits in
      let parts = length-envelope unsigned (lib.sign phone unsigned) in
      let m = client_of p device_id (lib.public_of secret) spki in
      let size = length-client m (intent_of was) in
      let long = ap length written in
      let wire : IsTypedClient m = record {
        session_id_typed = typed.session_id_typed;
        nonce_typed = typed.nonce_typed;
        verifier_id_typed = typed.verifier_id_typed;
        expires_at_ms_typed = typed.expires_at_ms_typed;
        device_id_typed = named;
        server_ephemeral_typed = key;
        ephemeral_typed = laws.public_size secret;
        identity_spki_typed = omega arith;
      } in
      (
        rw sent (
            decode_envelope-envelope unsigned (lib.sign phone unsigned) (omega arith) (omega arith)
              whole),
        rw written (decode_client-encode m (intent_of was) wire (omega arith)),
      )

  -- The keys, the binding and the code are the same at both ends.
  pub linked :
      (schedule : KeySchedule) (transport eph device_id spki : List ℕ) (was was' : Bool)
      (m : ServerHello) (b : ServerBootstrap) (p : PendingServerHandshake lib) (der : List ℕ)
      → p.bootstrap ≡ b
      → m ≡ hello_of p.bootstrap der p.public_key
      → Agree lib b device_id spki
          (record {
            channel =
                new lib.aead server schedule
                  (binding_of lib transport p.bootstrap.session_id p.public_key eph schedule);
            peer_identity_spki = spki;
            peer_device_id = device_id;
            verification_code = verification_code lib schedule.exporter;
            was_pairing = was;
            intent = some (intent_of was');
          })
          (record {
            channel =
                new lib.aead client schedule
                  (binding_of lib transport m.session_id m.ephemeral eph schedule);
            peer_identity_spki = m.identity_spki;
            peer_device_id = m.verifier_id;
            verification_code = verification_code lib schedule.exporter;
            was_pairing = was';
            intent = some (intent_of was');
          })
  unfolding new
  linked schedule transport eph device_id spki was was' m b p der boot read =
      let binding =
        ap (λ (h : ServerHello). binding_of lib transport h.session_id h.ephemeral eph schedule)
          read in
      record {
        down = record { keys = refl; bindings = sym binding; counters = refl };
        up = record { keys = refl; bindings = binding; counters = refl };
        code = refl;
        intent = refl;
        phone = refl;
        phone_key = refl;
        desktop =
            ap (λ (h : ServerHello). h.verifier_id) read
            ∙ ap (λ (q : ServerBootstrap). q.verifier_id) boot;
      }
