-- ===== src/Session/Handshake/Trust.antt =====
-- Whom the phone answers in phone-auth-session/src/handshake.rs: the exact conditions.
use bio_auth.Common.{
  ℕ, ◌≡◌, ◌↔◌, refl, ap, ◌∙◌, List, Bool, true, false, ◌||◌, ◌&&◌, not, some, ok, arith, length,
  is_empty, ltb, text_eq, text_eq_refl, text_eq→eq, Result, refuse, ◌>>◌,
}
use bio_auth.Common.Int.{ℤ, lebℤ, eqℤ, eqℤ→eq}
use bio_auth.Session.Channel.{SessionError, KeySchedule, new, client}
use bio_auth.Session.Crypto.{Library, hash_identity, public_key_spki}
use bio_auth.Session.Keys.{derive, verification_code}
use bio_auth.Session.Bootstrap.{ServerBootstrap, validate}
use bio_auth.Session.Handshake.{HandshakeOutcome, VerifierExpectation, ServerHello, transcript_hash}
use bio_auth.Session.Handshake.Hello.{decode_envelope, decode_server_hello}
use bio_auth.Session.Handshake.Client.{respond, check_verifier, matches}
use bio_auth.Session.Handshake.Outcome.{Verified, verify_iff, binding_of, responded}
use bio_auth.Session.Handshake.Client.{intent_of}
use bio_auth.Session.Handshake.Hello.{encode_client_hello, envelope}
use bio_auth.Session.Handshake.Safety.{eqℤ_refl}

all_four :
    (a b c d : Bool) → (a && b && c && d) ≡ true → (a ≡ true) × (b ≡ true) × (c ≡ true) × (d ≡ true)
all_four a b c d h = ground arith

-- The hello names the scanned session.
pub record Match (hello : ServerHello) (b : ServerBootstrap) : Type 0 where
  pub session : hello.session_id ≡ b.session_id
  pub verifier : hello.verifier_id ≡ b.verifier_id
  pub nonce : hello.nonce ≡ b.nonce
  pub deadline : hello.expires_at_ms ≡ b.expires_at_ms

pub matches_iff :
    (hello : ServerHello) (b : ServerBootstrap) → (matches hello b ≡ true) ↔ Match hello b
unfolding matches
matches_iff hello b = (
  λ e.
      let (s, v, n, d) =
        all_four (text_eq hello.session_id b.session_id) (text_eq hello.verifier_id b.verifier_id)
          (text_eq hello.nonce b.nonce) (eqℤ hello.expires_at_ms b.expires_at_ms) e in
      record {
        session = text_eq→eq _ _ s;
        verifier = text_eq→eq _ _ v;
        nonce = text_eq→eq _ _ n;
        deadline = eqℤ→eq _ _ d;
      },
  λ w.
      rw
        (
          w.session,
          w.verifier,
          w.nonce,
          w.deadline,
          text_eq_refl b.session_id,
          text_eq_refl b.verifier_id,
          text_eq_refl b.nonce,
          eqℤ_refl b.expires_at_ms,
        )
        refl,
)

abbrev pub was_scanned : VerifierExpectation → Bool
was_scanned (VerifierExpectation.paired spki) = false
was_scanned (VerifierExpectation.scanned b) = true

module _ (lib : Library) where
  -- A paired verifier has the stored key; a scanned one, the key that the code commits to, in the session
  -- of the code.
  abbrev pub IsVouched : VerifierExpectation → ServerHello → Type 0
  IsVouched (VerifierExpectation.paired spki) hello = hello.identity_spki ≡ spki
  IsVouched (VerifierExpectation.scanned b) hello =
      (validate b ≡ ok tt)
      × Match hello b
      × (hash_identity lib hello.identity_spki ≡ b.verifier_identity_hash)

  stored :
      (a was : Bool)
      → (refuse (not a) SessionError.peer_mismatch >> ok false) ≡ ok was
      → (a ≡ true) × (was ≡ false)
  stored a was e = ground arith

  committed :
      (v : Result SessionError (Unit {0})) (a b was : Bool)
      → (v
          >> (refuse (not a) SessionError.peer_mismatch
              >> (refuse (not b) SessionError.verifier_identity_mismatch >> ok true)))
        ≡ ok was
      → (v ≡ ok tt) × (a ≡ true) × (b ≡ true) × (was ≡ true)
  committed v a b was e = ground arith

  pub check_verifier_iff :
      (e : VerifierExpectation) (hello : ServerHello) (was : Bool)
      → (check_verifier lib e hello ≡ ok was) ↔ (IsVouched e hello × (was ≡ was_scanned e))
  unfolding check_verifier
  check_verifier_iff (VerifierExpectation.paired spki) hello was = (
    λ e.
        let (same, w) = stored (text_eq hello.identity_spki spki) was e in (text_eq→eq _ _ same, w),
    λ (k, w). rw (k, text_eq_refl spki, w) refl,
  )
  check_verifier_iff (VerifierExpectation.scanned b) hello was = (
    λ e.
        let (valid, same, hash, w) =
          committed (validate b) (matches hello b)
            (text_eq (hash_identity lib hello.identity_spki) b.verifier_identity_hash) was e in
        ((valid, (matches_iff hello b).0 same, text_eq→eq _ _ hash), w),
    λ ((valid, same, hash), w).
        rw (valid, (matches_iff hello b).1 same, hash, text_eq_refl b.verifier_identity_hash, w)
          refl,
  )

  -- The frame is signed by a verifier that is vouched for, and not past its deadline; the phone can write
  -- its own part; and what it answers.
  pub record Trusted (frame : List ℕ) (e : VerifierExpectation) (device_id : List ℕ)
      (identity : lib.SigningKey) (transport : List ℕ) (now_ms : ℤ) (seed answer : List ℕ)
      (o : HandshakeOutcome lib) : Type 0 where
    pub unsigned : List ℕ
    pub der : List ℕ
    pub hello : ServerHello
    pub spki : List ℕ
    pub schedule : KeySchedule
    pub client_unsigned : List ℕ
    pub named : (is_empty device_id || ltb 64 (length device_id)) ≡ false
    pub opened : decode_envelope frame ≡ ok (unsigned, der)
    pub read : decode_server_hello unsigned ≡ ok hello
    pub vouched : IsVouched e hello
    pub live : lebℤ hello.expires_at_ms now_ms ≡ false
    pub signed : Verified lib hello.identity_spki unsigned der
    pub own : lib.spki_of identity ≡ some spki
    pub written :
        client_unsigned
        ≡ encode_client_hello hello.session_id hello.nonce hello.verifier_id hello.expires_at_ms
            device_id hello.ephemeral
            (lib.public_of (lib.secret_from seed))
            spki
            (intent_of (was_scanned e))
    pub answered : answer ≡ envelope client_unsigned (lib.sign identity client_unsigned)
    pub keys :
        derive lib
          (lib.diffie_hellman (lib.secret_from seed) hello.ephemeral)
          (transcript_hash lib unsigned client_unsigned)
        ≡ ok schedule
    pub result : o ≡ record {
      channel = new lib.aead client schedule (
          binding_of lib transport hello.session_id hello.ephemeral
            (lib.public_of (lib.secret_from seed))
            schedule);
      peer_identity_spki = hello.identity_spki;
      peer_device_id = hello.verifier_id;
      verification_code = verification_code lib schedule.exporter;
      was_pairing = was_scanned e;
      intent = some (intent_of (was_scanned e));
    }

  completes :
      (frame : List ℕ) (e : VerifierExpectation) (device_id : List ℕ) (identity : lib.SigningKey)
      (transport : List ℕ) (now_ms : ℤ) (seed answer : List ℕ) (o : HandshakeOutcome lib)
      → Trusted frame e device_id identity transport now_ms seed answer o
      → respond lib frame e device_id identity transport now_ms seed ≡ ok (answer, o)
  unfolding respond public_key_spki
  completes frame e device_id identity transport now_ms seed answer o t =
      let peer = (check_verifier_iff e t.hello (was_scanned e)).1 (t.vouched, refl) in
      let signed = (verify_iff lib t.hello.identity_spki t.unsigned t.der).1 t.signed in
      rw
        (
          t.named,
          t.opened,
          t.read,
          peer,
          t.live,
          signed,
          t.own,
          ← t.written,
          t.keys,
          t.result,
          t.answered,
        )
        refl

  -- The phone answers a hello exactly if its own device id is 1 to 64 bytes long, the frame is read as a
  -- signed hello, that signature verifies under the key that the hello names, this key is the stored one or
  -- the one that a valid scanned code commits to for this session, the deadline that was signed is not
  -- past, the phone's own key can be written out, and the keys are derived. What it then signs names the
  -- session, the nonce, the verifier, the deadline and the ephemeral key of the hello, but not the
  -- verifier's identity key, and the phone's device id, ephemeral key, identity key and intent. The outcome
  -- names the verifier's key, and its channel has the keys derived from both unsigned hellos.
  pub respond_iff :
      (frame : List ℕ) (e : VerifierExpectation) (device_id : List ℕ) (identity : lib.SigningKey)
      (transport : List ℕ) (now_ms : ℤ) (seed answer : List ℕ) (o : HandshakeOutcome lib)
      → (respond lib frame e device_id identity transport now_ms seed ≡ ok (answer, o))
        ↔ Trusted frame e device_id identity transport now_ms seed answer o
  respond_iff frame e device_id identity transport now_ms seed answer o = (
    λ h.
        let r = responded lib frame e device_id identity transport now_ms seed answer o h in
        let (vouched, was) = (check_verifier_iff e r.hello r.was_pairing).0 r.expected in
        record {
          unsigned = r.unsigned;
          der = r.der;
          hello = r.hello;
          spki = r.spki;
          schedule = r.schedule;
          client_unsigned = r.client_unsigned;
          named = r.named;
          opened = r.opened;
          read = r.read;
          vouched = vouched;
          live = r.live;
          signed = (verify_iff lib r.hello.identity_spki r.unsigned r.der).0 r.signed;
          own = r.own;
          written = r.written ∙ ap (λ (w : Bool). wrote r.hello r.spki w) was;
          answered = r.answered;
          keys = r.keys;
          result = r.result ∙ ap (λ (w : Bool). outcome r.hello r.schedule w) was;
        },
    completes frame e device_id identity transport now_ms seed answer o,
  )
    where
      wrote : ServerHello → List ℕ → Bool → List ℕ
      wrote hello spki w =
          encode_client_hello hello.session_id hello.nonce hello.verifier_id hello.expires_at_ms
            device_id hello.ephemeral (lib.public_of (lib.secret_from seed)) spki (intent_of w)

      outcome : ServerHello → KeySchedule → Bool → HandshakeOutcome lib
      outcome hello schedule w = record {
        channel = new lib.aead client schedule (
            binding_of lib transport hello.session_id hello.ephemeral
              (lib.public_of (lib.secret_from seed)) schedule);
        peer_identity_spki = hello.identity_spki;
        peer_device_id = hello.verifier_id;
        verification_code = verification_code lib schedule.exporter;
        was_pairing = w;
        intent = some (intent_of w);
      }
