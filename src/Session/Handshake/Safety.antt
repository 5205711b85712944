-- ===== src/Session/Handshake/Safety.antt =====
-- Whom phone-auth-session/src/handshake.rs finishes with: the exact conditions at either end.
use bio_auth.Common.{
  ℕ, ◌≡◌, ◌↔◌, refl, ap, ◌∙◌, List, Bool, true, false, ◌||◌, ◌&&◌, not, ok, arith, text_eq,
  text_eq_refl, text_eq→eq, refuse, ◌>>◌,
}
use bio_auth.Common.Int.{ℤ, eqℤ, eqℤ→eq}
use bio_auth.Session.Channel.{SessionError, KeySchedule, new, server}
use bio_auth.Session.Crypto.{Library}
use bio_auth.Session.Keys.{derive, verification_code}
use bio_auth.Session.Handshake.{HandshakeOutcome, PeerExpectation, ClientHello, transcript_hash}
use bio_auth.Session.Handshake.Hello.{decode_envelope, decode_client_hello}
use bio_auth.Session.Handshake.Server.{PendingServerHandshake, finish, echoes, check_peer}
use bio_auth.Session.Handshake.Outcome.{Verified, verify_iff, binding_of, finished}

pub eqℤ_refl : (a : ℤ) → eqℤ a a ≡ true
eqℤ_refl a = ground arith

-- The client names this handshake: its session, verifier, nonce, deadline and ephemeral key.
pub record Echo (lib : Library) (p : PendingServerHandshake lib) (hello : ClientHello)
    : Type 0 where
  pub session : hello.session_id ≡ p.bootstrap.session_id
  pub verifier : hello.verifier_id ≡ p.bootstrap.verifier_id
  pub nonce : hello.nonce ≡ p.bootstrap.nonce
  pub deadline : hello.expires_at_ms ≡ p.bootstrap.expires_at_ms
  pub key : hello.server_ephemeral ≡ p.public_key

all_five :
    (a b c d k : Bool)
    → (a && b && c && d && k) ≡ true
    → (a ≡ true) × (b ≡ true) × (c ≡ true) × (d ≡ true) × (k ≡ true)
all_five a b c d k h = ground arith

pub echoes_iff :
    (lib : Library) (p : PendingServerHandshake lib) (hello : ClientHello)
    → (echoes lib p hello ≡ true) ↔ Echo lib p hello
unfolding echoes
echoes_iff lib p hello = (
  λ e.
      let (a, b, c, d, k) =
        all_five (text_eq hello.session_id p.bootstrap.session_id)
          (text_eq hello.verifier_id p.bootstrap.verifier_id)
          (text_eq hello.nonce p.bootstrap.nonce)
          (eqℤ hello.expires_at_ms p.bootstrap.expires_at_ms)
          (text_eq hello.server_ephemeral p.public_key) e in
      record {
        session = text_eq→eq _ _ a;
        verifier = text_eq→eq _ _ b;
        nonce = text_eq→eq _ _ c;
        deadline = eqℤ→eq _ _ d;
        key = text_eq→eq _ _ k;
      },
  λ w.
      rw
        (
          w.session,
          w.verifier,
          w.nonce,
          w.deadline,
          w.key,
          text_eq_refl p.bootstrap.session_id,
          text_eq_refl p.bootstrap.verifier_id,
          text_eq_refl p.bootstrap.nonce,
          eqℤ_refl p.bootstrap.expires_at_ms,
          text_eq_refl p.public_key,
        )
        refl,
)

-- A paired phone must be the one that is expected; when pairing, any is a proposal.
abbrev pub IsExpected : PeerExpectation → ClientHello → Type 0
IsExpected (PeerExpectation.paired device_id spki) hello =
    (hello.device_id ≡ device_id) × (hello.identity_spki ≡ spki)
IsExpected PeerExpectation.pairing hello = Unit

abbrev pub is_pairing : PeerExpectation → Bool
is_pairing (PeerExpectation.paired device_id spki) = false
is_pairing PeerExpectation.pairing = true

pub check_peer_iff :
    (lib : Library) (e : PeerExpectation) (hello : ClientHello) (was : Bool)
    → (check_peer lib e hello ≡ ok was) ↔ (IsExpected e hello × (was ≡ is_pairing e))
unfolding check_peer
check_peer_iff lib (PeerExpectation.paired device_id spki) hello was = (
  λ e. (
    (
      text_eq→eq _ _
          (first (text_eq hello.device_id device_id) (text_eq hello.identity_spki spki) was e).0,
      text_eq→eq _ _
          (first (text_eq hello.device_id device_id) (text_eq hello.identity_spki spki) was e).1,
    ),
    (first (text_eq hello.device_id device_id) (text_eq hello.identity_spki spki) was e).2,
  ),
  λ ((d, k), w). rw (d, k, text_eq_refl device_id, text_eq_refl spki, w) refl,
)
  where
    first :
        (a b : Bool) (was : Bool)
        → (refuse (not a || not b) SessionError.peer_mismatch >> ok false) ≡ ok was
        → (a ≡ true) × (b ≡ true) × (was ≡ false)
    first a b was e = ground arith
check_peer_iff lib PeerExpectation.pairing hello was =
    (λ e. (tt, ground arith), λ (h, w). rw w refl)

module _ (lib : Library) where
  -- The frame is signed with the key that it names, by a peer that echoes this handshake and is the
  -- expected one.
  pub record Genuine (p : PendingServerHandshake lib) (frame : List ℕ) (e : PeerExpectation)
      (transport : List ℕ) (o : HandshakeOutcome lib) : Type 0 where
    pub unsigned : List ℕ
    pub der : List ℕ
    pub hello : ClientHello
    pub schedule : KeySchedule
    pub opened : decode_envelope frame ≡ ok (unsigned, der)
    pub read : decode_client_hello unsigned ≡ ok hello
    pub echoed : Echo lib p hello
    pub expected : IsExpected e hello
    pub signed : Verified lib hello.identity_spki unsigned der
    pub keys :
        derive lib
          (lib.diffie_hellman p.secret hello.ephemeral)
          (transcript_hash lib p.server_unsigned unsigned)
        ≡ ok schedule
    pub result : o ≡ record {
      channel =
          new lib.aead server schedule
            (binding_of lib transport p.bootstrap.session_id p.public_key hello.ephemeral schedule);
      peer_identity_spki = hello.identity_spki;
      peer_device_id = hello.device_id;
      verification_code = verification_code lib schedule.exporter;
      was_pairing = is_pairing e;
      intent = hello.intent;
    }

  pub completes :
      (p : PendingServerHandshake lib) (frame : List ℕ) (e : PeerExpectation) (transport : List ℕ)
      (o : HandshakeOutcome lib)
      → Genuine p frame e transport o
      → finish lib p frame e transport ≡ ok o
  unfolding finish
  completes p frame e transport o g =
      let echoed = (echoes_iff lib p g.hello).1 g.echoed in
      let peer = (check_peer_iff lib e g.hello (is_pairing e)).1 (g.expected, refl) in
      let signed = (verify_iff lib g.hello.identity_spki g.unsigned g.der).1 g.signed in
      rw (g.opened, g.read, echoed, peer, signed, g.keys, g.result) refl

  -- The desktop completes a handshake exactly with a frame whose signature verifies under the key that
  -- the frame names, that repeats the session, verifier, nonce, deadline and ephemeral key of this very
  -- handshake, and that comes from the expected phone and key if one is expected. The keys of the
  -- channel then come from both ephemeral keys and both messages.
  pub finish_iff :
      (p : PendingServerHandshake lib) (frame : List ℕ) (e : PeerExpectation) (transport : List ℕ)
      (o : HandshakeOutcome lib)
      → (finish lib p frame e transport ≡ ok o) ↔ Genuine p frame e transport o
  finish_iff p frame e transport o = (
    λ h.
        let f = finished lib p frame e transport o h in
        let (peer, was) = (check_peer_iff lib e f.hello f.was_pairing).0 f.expected in
        record {
          unsigned = f.unsigned;
          der = f.der;
          hello = f.hello;
          schedule = f.schedule;
          opened = f.opened;
          read = f.read;
          echoed = (echoes_iff lib p f.hello).0 f.echoed;
          expected = peer;
          signed = (verify_iff lib f.hello.identity_spki f.unsigned f.der).0 f.signed;
          keys = f.keys;
          result = f.result ∙ ap (λ (w : Bool). outcome f.hello f.schedule w) was;
        },
    completes p frame e transport o,
  )
    where
      outcome : ClientHello → KeySchedule → Bool → HandshakeOutcome lib
      outcome hello schedule was = record {
        channel =
            new lib.aead server schedule (
              binding_of lib transport p.bootstrap.session_id p.public_key hello.ephemeral
                schedule);
        peer_identity_spki = hello.identity_spki;
        peer_device_id = hello.device_id;
        verification_code = verification_code lib schedule.exporter;
        was_pairing = was;
        intent = hello.intent;
      }
