-- ===== src/Session/Handshake/Run.antt =====
-- The desktop's end of an honest run of phone-auth-session/src/handshake.rs, from the phone's.
use bio_auth.Common.{ℕ, ◌≡◌, refl, sym, ap, subst, ◌∙◌, List, some, ok, arith, length, Option, Bool}
use bio_auth.Common.Int.{ℤ}
use bio_auth.Protocol.Items.{IsText}
use bio_auth.Session.Channel.{KeySchedule, new, server}
use bio_auth.Session.Crypto.{Library, IsLibrary}
use bio_auth.Session.Keys.{derive, verification_code}
use bio_auth.Session.Bootstrap.{ServerBootstrap}
use bio_auth.Session.Handshake.{
  HandshakeOutcome, PeerExpectation, VerifierExpectation, ServerHello, ClientHello, transcript_hash,
}
use bio_auth.Session.Handshake.Hello.{decode_envelope, decode_client_hello, encode_client_hello}
use bio_auth.Session.Handshake.Server.{PendingServerHandshake, begin, finish}
use bio_auth.Session.Handshake.Client.{respond, intent_of}
use bio_auth.Session.Handshake.Reading.{Fits}
use bio_auth.Session.Handshake.RoundTrip.{hello_of, encode_of}
use bio_auth.Session.Handshake.Outcome.{binding_of, Begun, begun}
use bio_auth.Session.Handshake.Safety.{Genuine, completes, IsExpected, is_pairing}
use bio_auth.Session.Handshake.Trust.{respond_iff, was_scanned}
use bio_auth.Session.Handshake.Agreement.{
  IsTyped, Admits, Agree, hello_read, client_of, answer_read, linked,
}

some-eq : {A : Type 0} {r : Option A} (a b : A) → r ≡ some a → r ≡ some b → a ≡ b
some-eq a b h k = ground arith

module _ (lib : Library) (laws : IsLibrary lib) where
  expected :
      (e : PeerExpectation) (m : ClientHello)
      → Admits e m.device_id m.identity_spki
      → IsExpected e m
  expected (PeerExpectation.paired device_id spki) m h = h
  expected PeerExpectation.pairing m h = tt

  -- Both ends share a secret.
  same_secret :
      (p : PendingServerHandshake lib) (s : lib.Secret) (h : ServerHello)
      → p.public_key ≡ lib.public_of p.secret
      → h.ephemeral ≡ p.public_key
      → lib.diffie_hellman p.secret (lib.public_of s) ≡ lib.diffie_hellman s h.ephemeral
  same_secret p s h key shown =
      laws.shared p.secret s ∙ ap (lib.diffie_hellman s) (sym (shown ∙ key))

  -- And so both derive the same keys.
  same_keys :
      (p : PendingServerHandshake lib) (s : lib.Secret) (h : ServerHello)
      (server_unsigned unsigned : List ℕ) (schedule : KeySchedule)
      → p.public_key ≡ lib.public_of p.secret
      → h.ephemeral ≡ p.public_key
      → server_unsigned ≡ p.server_unsigned
      → derive lib (lib.diffie_hellman s h.ephemeral) (transcript_hash lib server_unsigned unsigned)
        ≡ ok schedule
      → derive lib
          (lib.diffie_hellman p.secret (lib.public_of s))
          (transcript_hash lib p.server_unsigned unsigned)
        ≡ ok schedule
  same_keys p s h server_unsigned unsigned schedule key shown same keys =
      ap (λ (z : List ℕ). derive lib z (transcript_hash lib p.server_unsigned unsigned))
        (same_secret p s h key shown)
      ∙ ap
          (λ (z : List ℕ).
            derive lib (lib.diffie_hellman s h.ephemeral) (transcript_hash lib z unsigned))
          (sym same)
      ∙ keys

  -- The public key of a handshake that has begun.
  own_key :
      (b : ServerBootstrap) (desktop : lib.SigningKey) (seed : List ℕ)
      (p : PendingServerHandshake lib) (hello : List ℕ)
      → Begun lib b desktop seed p hello
      → p.public_key ≡ lib.public_of p.secret
  own_key b desktop seed p hello bg =
      ap (λ (q : PendingServerHandshake lib). q.public_key) bg.made
      ∙ ap lib.public_of (sym (ap (λ (q : PendingServerHandshake lib). q.secret) bg.made))

  -- What the desktop comes out with.
  abbrev outcome_of :
      PendingServerHandshake lib
      → PeerExpectation
      → List ℕ
      → List ℕ
      → List ℕ
      → List ℕ
      → Bool
      → KeySchedule
      → HandshakeOutcome lib
  outcome_of p e transport device_id spki eph was schedule = record {
    channel =
        new lib.aead server schedule
          (binding_of lib transport p.bootstrap.session_id p.public_key eph schedule);
    peer_identity_spki = spki;
    peer_device_id = device_id;
    verification_code = verification_code lib schedule.exporter;
    was_pairing = is_pairing e;
    intent = some (intent_of was);
  }

  -- An answer that reads as the phone's hello is one that the desktop completes with.
  answer-Genuine :
      (p : PendingServerHandshake lib) (answer unsigned : List ℕ) (e : PeerExpectation)
      (transport device_id spki eph : List ℕ) (was : Bool) (phone : lib.SigningKey)
      (schedule : KeySchedule)
      → lib.spki_of phone ≡ some spki
      → Admits e device_id spki
      → decode_envelope answer ≡ ok (unsigned, lib.sign phone unsigned)
      → decode_client_hello unsigned
        ≡ ok (record (client_of lib laws p device_id eph spki) { intent = some (intent_of was) })
      → derive lib
          (lib.diffie_hellman p.secret eph)
          (transcript_hash lib p.server_unsigned unsigned)
        ≡ ok schedule
      → Genuine lib p answer e transport (outcome_of p e transport device_id spki eph was schedule)
  answer-Genuine p answer unsigned e transport device_id spki eph was phone schedule own admits
        opened understood keys =
      let m : ClientHello = record (client_of lib laws p device_id eph spki) {
        intent = some (intent_of was);
      } in
      record {
        unsigned = unsigned;
        der = lib.sign phone unsigned;
        hello = m;
        schedule = schedule;
        opened = opened;
        read = understood;
        echoed = record {
          session = refl;
          verifier = refl;
          nonce = refl;
          deadline = refl;
          key = refl;
        };
        expected = expected e m admits;
        signed = laws.verifies_own phone spki own unsigned;
        keys = keys;
        result = refl;
      }

  -- An honest run completes: when the desktop began a handshake, the phone answered its hello, the answer
  -- fits a frame and the desktop expects this phone or is pairing, then the desktop completes with an
  -- outcome whose channel is linked with the phone's in both directions, with the same pairing code and
  -- intent, and each end names the other.
  pub handshake_lem :
      (b : ServerBootstrap) (desktop phone : lib.SigningKey)
      (desktop_seed phone_seed device_id transport spki : List ℕ) (now_ms : ℤ)
      (p : PendingServerHandshake lib) (hello answer : List ℕ) (v : VerifierExpectation)
      (o : HandshakeOutcome lib) (e : PeerExpectation)
      → IsTyped b
      → IsText device_id
      → begin lib b desktop desktop_seed ≡ ok (p, hello)
      → respond lib hello v device_id phone transport now_ms phone_seed ≡ ok (answer, o)
      → Fits answer
      → lib.spki_of phone ≡ some spki
      → Admits e device_id spki
      → (s : HandshakeOutcome lib) × (finish lib p answer e transport ≡ ok s)
        × Agree lib b device_id spki s o
  handshake_lem b desktop phone desktop_seed phone_seed device_id transport spki now_ms p hello
        answer v o e typed named started answered fits own admits =
      let bg = begun lib b desktop desktop_seed p hello started in
      let t =
        (respond_iff lib hello v device_id phone transport now_ms phone_seed answer o).0 answered in
      let (same, read) =
        hello_read lib laws b desktop desktop_seed p hello t.unsigned t.der t.hello bg typed
          t.opened t.read in
      let boot : p.bootstrap ≡ b = ap (λ (q : PendingServerHandshake lib). q.bootstrap) bg.made in
      let read' : t.hello ≡ hello_of p.bootstrap bg.spki p.public_key =
        read ∙ ap (λ (q : ServerBootstrap). hello_of q bg.spki p.public_key) (sym boot) in
      let key = own_key b desktop desktop_seed p hello bg in
      let phone_secret = lib.secret_from phone_seed in
      let eph = lib.public_of phone_secret in
      let was = was_scanned v in
      let written : t.client_unsigned
          ≡ encode_of (client_of lib laws p device_id eph spki) (intent_of was) =
        t.written
        ∙ ap
            (λ (h : ServerHello).
              encode_client_hello h.session_id h.nonce h.verifier_id h.expires_at_ms device_id
                h.ephemeral eph t.spki (intent_of was))
            read'
        ∙ ap (λ (k : List ℕ). encode_of (client_of lib laws p device_id eph k) (intent_of was))
            (some-eq t.spki spki t.own own) in
      let (opened, understood) =
        answer_read lib laws p device_id spki phone phone_secret was t.client_unsigned answer
          (subst IsTyped (sym boot) typed) (ap length key ∙ laws.public_size p.secret) named written
          t.answered fits in
      let keys =
        same_keys p phone_secret t.hello t.unsigned t.client_unsigned t.schedule key
          (ap (λ (h : ServerHello). h.ephemeral) read') same t.keys in
      let out = outcome_of p e transport device_id spki eph was t.schedule in
      (
        out,
        completes lib p answer e transport out (
            answer-Genuine p answer t.client_unsigned e transport device_id spki eph was phone
              t.schedule own admits opened understood keys),
        subst (Agree lib b device_id spki out) (sym t.result) (
            linked lib laws t.schedule transport eph device_id spki (is_pairing e) was t.hello b p
              bg.spki boot read'),
      )
